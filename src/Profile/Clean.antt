-- ===== src/Profile/Clean.antt =====
-- What the parser of core/profile/config.go reads has no newline in its values.
use mazzy_vpn.Base.{
  ◌≡◌, refl, ◌∙◌, sym, ap, Bool, true, false, not, Option, none, some, List, [], ◌∷◌, map,
  if◌then◌else◌, Text, codes, ◌==◌, any, All, All-append, Bool-cases, inl, inr, subst, contains,
  length, leb, trim_space,
}
use mazzy_vpn.Base.Dict
use mazzy_vpn.Base.Dict.{Dict, get-put}
use mazzy_vpn.Intent.{split_lines, drop_cr, scan, max_token}
use mazzy_vpn.Profile.{Peer, Config}
use mazzy_vpn.Profile.Lines.{IsClean}
use mazzy_vpn.Profile.Values.{AreClean, IsCleanPeer}
use mazzy_vpn.Profile.Parse.{
  unreadable, Parsed, ok, err, and_then, split_kv, split_list, set_amnezia, set_interface, set_peer,
  set_last, set_field, amnezia_keys, or_error, atoi_field, parse_fw_mark, empty_peer, empty_config,
  unsafe_interface_keys, Progress, enter, field_of, parse_line, parse_lines, parse, is_skipped,
  is_header, header_name,
}
use mazzy_vpn.Profile.Pieces.{
  IsCleanPair, split_lines-IsClean, drop_cr-IsClean, trim_space-IsClean, split_kv-IsCleanPair,
  split_list-IsClean,
}

-- What is parsed, if it is, has the property.
abbrev pub Gives : {A : Type 0} → (A → Type 0) → Parsed A → Type 0
Gives P (ok a) = P a
Gives P (err e) = Unit

module _ {A : Type 0} (P : A → Type 0) where
  if-Gives : (b : Bool) (x y : Parsed A) → Gives P x → Gives P y → Gives P (if b then x else y)
  if-Gives true x y h k = h
  if-Gives false x y h k = k

  and_then-Gives :
      {B : Type 0} (Q : B → Type 0) (x : Parsed B) (f : B → Parsed A)
      → Gives Q x
      → ((b : B) → Q b → Gives P (f b))
      → Gives P (and_then x f)
  and_then-Gives Q (ok b) f h k = k b h
  and_then-Gives Q (err e) f h k = tt

  always-Gives :
      {B : Type 0} (x : Parsed B) (f : B → Parsed A)
      → ((b : B) → Gives P (f b))
      → Gives P (and_then x f)
  always-Gives (ok b) f k = k b
  always-Gives (err e) f k = tt

abbrev pub IsCleanConfig : Config → Type 0
IsCleanConfig c = AreClean c.amnezia × All IsCleanPeer c.peers

abbrev or_nil : Option Text → Text
or_nil none = []
or_nil (some t) = t

put-AreClean : (a : Dict Text) (key v : Text) → AreClean a → IsClean v → AreClean (Dict.put a key v)
put-AreClean a key v h k j w e = chosen (key == j) (sym (get-put a key v j) ∙ e)
  where
    chosen : (b : Bool) → (if b then some v else Dict.get a j) ≡ some w → IsClean w
    chosen true g = subst IsClean (ap or_nil g) k
    chosen false g = h j w g

set_amnezia-IsClean :
    (key val : Text) (c : Config)
    → IsClean val
    → IsCleanConfig c
    → Gives IsCleanConfig (set_amnezia key val c)
set_amnezia-IsClean key val c v h =
    if-Gives IsCleanConfig (not (contains key amnezia_keys)) _ _ tt
      (if-Gives IsCleanConfig (val == []) _ _ tt (put-AreClean c.amnezia key val h.0 v, h.1))

set_interface-IsClean :
    (key val : Text) (c : Config)
    → IsClean val
    → IsCleanConfig c
    → Gives IsCleanConfig (set_interface key val c)
unfolding set_interface
set_interface-IsClean key val c v h = if-Gives IsCleanConfig (key == codes "privatekey") _ _ h (
    if-Gives IsCleanConfig (key == codes "address") _ _ h (
      if-Gives IsCleanConfig (key == codes "dns") _ _ h (
        if-Gives IsCleanConfig (key == codes "mtu") _ _
          (always-Gives IsCleanConfig (atoi_field val) _ (λ n. h))
          (if-Gives IsCleanConfig (key == codes "listenport") _ _
            (always-Gives IsCleanConfig (atoi_field val) _ (λ n. h))
            (if-Gives IsCleanConfig (key == codes "fwmark") _ _
              (always-Gives IsCleanConfig (parse_fw_mark val) _ (λ n. h))
              (set_amnezia-IsClean key val c v h))))))

set_peer-IsClean :
    (key val : Text) (p : Peer)
    → IsClean val
    → IsCleanPeer p
    → Gives IsCleanPeer (set_peer key val p)
unfolding set_peer
set_peer-IsClean key val p v h = if-Gives IsCleanPeer (key == codes "publickey") _ _ h (
    if-Gives IsCleanPeer (key == codes "presharedkey") _ _ h (
      if-Gives IsCleanPeer (key == codes "endpoint") _ _ (v, h.1)
        (if-Gives IsCleanPeer (key == codes "allowedips") _ _
          (h.0, All-append IsClean p.allowed_ips (split_list val) h.1 (split_list-IsClean val v))
          (if-Gives IsCleanPeer (key == codes "persistentkeepalive") _ _
            (always-Gives IsCleanPeer (atoi_field val) _ (λ n. h)) tt))))

set_last-IsClean :
    (key val : Text) (ps : List Peer)
    → IsClean val
    → All IsCleanPeer ps
    → Gives (All IsCleanPeer) (set_last key val ps)
unfolding set_last
set_last-IsClean key val [] v h = tt
set_last-IsClean key val (p ∷ []) v h =
    and_then-Gives (All IsCleanPeer) IsCleanPeer (set_peer key val p) _
      (set_peer-IsClean key val p v h.0) (λ q k. (k, tt))
set_last-IsClean key val (p ∷ q ∷ ps) v h =
    and_then-Gives (All IsCleanPeer) (All IsCleanPeer) (set_last key val (q ∷ ps)) _
      (set_last-IsClean key val (q ∷ ps) v h.1) (λ rest k. (h.0, k))

set_field-IsClean :
    (section key val : Text) (c : Config)
    → IsClean val
    → IsCleanConfig c
    → Gives IsCleanConfig (set_field section key val c)
unfolding set_field
set_field-IsClean section key val c v h =
    if-Gives IsCleanConfig (section == codes "interface") _ _
      (if-Gives IsCleanConfig (contains key unsafe_interface_keys) _ _ tt
        (set_interface-IsClean key val c v h))
      (if-Gives IsCleanConfig (section == codes "peer") _ _
        (and_then-Gives IsCleanConfig (All IsCleanPeer) (set_last key val c.peers) _
          (set_last-IsClean key val c.peers v h.1) (λ ps k. (h.0, k)))
        tt)

abbrev IsCleanProgress : Progress → Type 0
IsCleanProgress s = IsCleanConfig s.config

field_of-IsClean :
    (to_lower : Text → Text) (s : Progress) (o : Option (Text × Text))
    → IsCleanPair o
    → IsCleanProgress s
    → Gives IsCleanProgress (field_of to_lower s o)
field_of-IsClean to_lower s none v h = tt
field_of-IsClean to_lower s (some (k, v)) clean h =
    and_then-Gives IsCleanProgress IsCleanConfig (set_field s.section (to_lower k) v s.config) _
      (set_field-IsClean s.section (to_lower k) v s.config clean h) (λ c g. g)

enter-IsClean : (name : Text) (s : Progress) → IsCleanProgress s → IsCleanProgress (enter name s)
unfolding any
enter-IsClean name s h = elim (Bool-cases (name == codes "peer")) [
  | inl e ↦ rw e (h.0, All-append IsCleanPeer s.config.peers (empty_peer ∷ []) h.1 ((refl, tt), tt))
  | inr e ↦ rw e h
]

parse_line-IsClean :
    (to_lower : Text → Text) (raw : Text) (s : Progress)
    → IsClean raw
    → IsCleanProgress s
    → Gives IsCleanProgress (parse_line to_lower raw s)
unfolding parse_line
parse_line-IsClean to_lower raw s v h =
    let line = trim_space raw in
    if-Gives IsCleanProgress (is_skipped line) _ _ h (
      if-Gives IsCleanProgress (is_header line) _ _ (enter-IsClean (header_name to_lower line) s h)
        (field_of-IsClean to_lower s (split_kv line)
          (split_kv-IsCleanPair line (trim_space-IsClean raw v)) h))

parse_lines-IsClean :
    (to_lower : Text → Text) (ls : List Text) (s : Progress)
    → All IsClean ls
    → IsCleanProgress s
    → Gives IsCleanProgress (parse_lines to_lower ls s)
unfolding parse_lines
parse_lines-IsClean to_lower [] s v h = h
parse_lines-IsClean to_lower (l ∷ ls) s v h =
    and_then-Gives IsCleanProgress IsCleanProgress (parse_line to_lower l s)
      (parse_lines to_lower ls) (parse_line-IsClean to_lower l s v.0 h)
      (λ s' g. parse_lines-IsClean to_lower ls s' v.1 g)

drop_crs-IsClean : (ls : List Text) → All IsClean ls → All IsClean (map drop_cr ls)
drop_crs-IsClean [] h = tt
drop_crs-IsClean (l ∷ ls) h = (drop_cr-IsClean l h.0, drop_crs-IsClean ls h.1)

abbrev AreCleanLines : List Text → Type 0
AreCleanLines = All IsClean

scan-IsClean : (t : Text) → Gives AreCleanLines (or_error unreadable (scan t))
unfolding scan
scan-IsClean t = elim (Bool-cases (any (λ l. leb max_token (length l)) (split_lines t))) [
  | inl e ↦ rw e tt
  | inr e ↦ rw e (drop_crs-IsClean (split_lines t) (split_lines-IsClean t))
]

nothing-AreClean : AreClean []
unfolding Dict.get
nothing-AreClean k w e = absurd (cc)

-- Whatever the text is, a configuration that is parsed from it has no newline in an endpoint, an
-- allowed address or an AmneziaWG value.
pub parse-IsClean : (to_lower : Text → Text) (t : Text) → Gives IsCleanConfig (parse to_lower t)
unfolding parse any
parse-IsClean to_lower t =
    let start : Progress = record { section = []; config = empty_config } in
    and_then-Gives IsCleanConfig AreCleanLines (or_error unreadable (scan t)) _ (scan-IsClean t)
      (λ ls v.
        and_then-Gives IsCleanConfig IsCleanProgress (parse_lines to_lower ls start) _
          (parse_lines-IsClean to_lower ls start v (nothing-AreClean, tt)) (λ s g. g))
