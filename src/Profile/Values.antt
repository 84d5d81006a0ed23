-- ===== src/Profile/Values.antt =====
-- The parts of what core/profile/uapi.go writes, each as lines.
use mazzy_vpn.Base.{
  ℕ, zero, suc, ◌≡◌, refl, ap, Option, none, some, List, [], ◌∷◌, ◌++◌, map, Text, codes, ℤ, pos,
  negsuc, nat_beq, any, All, arith, format_ℕ, Bool-cases, length, subst, trim_space, inl, inr,
}
use mazzy_vpn.Base.Dict
use mazzy_vpn.Base.Dict.{Dict}
use mazzy_vpn.Base.Decimal.RoundTrip.{format_ℕ_lem}
use mazzy_vpn.Intent.RoundTrip.{newline-number}
use mazzy_vpn.Profile.{Peer}
use mazzy_vpn.Profile.Uapi.{
  key_size, Written, written, failed, and_then, hex, checked_key, key_base64_to_hex, positive_line,
  line_for, allowed_lines, amnezia_lines, amnezia_uapi_order,
}
use mazzy_vpn.Profile.Lines.{IsClean, Renders, none-Renders, Renders-append, setting, line-Renders}

pub number-IsClean : (n : ℕ) → IsClean (format_ℕ n)
number-IsClean n = newline-number (format_ℕ n) (format_ℕ_lem n).1

-- The setting of a number that is above 0.
abbrev pub positive_setting : Text → ℤ → List Text
positive_setting key (pos (suc n)) = setting key (format_ℕ (suc n)) ∷ []
positive_setting key _ = []

pub positive_line-Renders :
    (key : Text) (z : ℤ) → IsClean key → Renders (positive_setting key z) (positive_line key z)
unfolding positive_line
positive_line-Renders key (pos (suc n)) h =
    line-Renders key (format_ℕ (suc n)) h (number-IsClean (suc n))
positive_line-Renders key (pos zero) h = none-Renders
positive_line-Renders key (negsuc n) h = none-Renders

pub allowed_lines-Renders :
    (ips : List Text)
    → All IsClean ips
    → Renders (map (setting (codes "allowed_ip")) ips) (allowed_lines ips)
unfolding allowed_lines any
allowed_lines-Renders [] h = none-Renders
allowed_lines-Renders (ip ∷ ips) h =
    Renders-append (setting (codes "allowed_ip") ip ∷ []) (map (setting (codes "allowed_ip")) ips) _
      _ (line-Renders (codes "allowed_ip") ip refl h.0) (allowed_lines-Renders ips h.1)

abbrev pub setting_for : Text → Option Text → List Text
setting_for key none = []
setting_for key (some v) = setting key v ∷ []

abbrev pub amnezia_settings : List Text → Dict Text → List Text
amnezia_settings [] a = []
amnezia_settings (key ∷ keys) a = setting_for key (Dict.get a key) ++ amnezia_settings keys a

-- Every value of the map is clean.
abbrev pub AreClean : Dict Text → Type 0
AreClean a = (k v : Text) → Dict.get a k ≡ some v → IsClean v

pub line_for-Renders :
    (key : Text) (o : Option Text)
    → IsClean key
    → ((v : Text) → o ≡ some v → IsClean v)
    → Renders (setting_for key o) (line_for key o)
line_for-Renders key none h k = none-Renders
line_for-Renders key (some v) h k = line-Renders key v h (k v refl)

pub amnezia_lines-Renders :
    (keys : List Text) (a : Dict Text)
    → All IsClean keys
    → AreClean a
    → Renders (amnezia_settings keys a) (amnezia_lines keys a)
unfolding amnezia_lines
amnezia_lines-Renders [] a h k = none-Renders
amnezia_lines-Renders (key ∷ keys) a h k =
    Renders-append (setting_for key (Dict.get a key)) (amnezia_settings keys a) _ _
      (line_for-Renders key (Dict.get a key) h.0 (k key)) (amnezia_lines-Renders keys a h.1 k)

pub order-IsClean : All IsClean amnezia_uapi_order
unfolding amnezia_uapi_order any
order-IsClean = (
  refl,
  (
    refl,
    (
      refl,
      (
        refl,
        (
          refl,
          (
            refl,
            (
              refl,
              (
                refl,
                (
                  refl,
                  (
                    refl,
                    (
                      refl,
                      (refl, (refl, (refl, (refl, (refl, (refl, (refl, (refl, (refl, tt))))))))),
                    ),
                  ),
                ),
              ),
            ),
          ),
        ),
      ),
    ),
  ),
)

pub hex-IsClean : (bytes : List ℕ) → IsClean (hex bytes)
unfolding hex any
hex-IsClean [] = refl
hex-IsClean (b ∷ bs) = ground (arith, hex-IsClean bs)

-- The text, if there is one.
abbrev pub text_of : {E : Type 0} → Written E → Text
text_of (written t) = t
text_of (failed _) = []

pub checked_key-IsClean :
    (raw : Option (List ℕ)) (t : Text) → checked_key raw ≡ written t → IsClean t
checked_key-IsClean none t e = absurd (cc)
checked_key-IsClean (some raw) t e = elim (Bool-cases (nat_beq (length raw) key_size)) [
  | inl fits ↦ let g = rw fits at e in subst IsClean (ap text_of g) (hex-IsClean raw)
  | inr other ↦ absurd (let g = rw other at e in cc)
]

pub key-IsClean :
    (decode : Text → Option (List ℕ)) (b64 t : Text)
    → key_base64_to_hex decode b64 ≡ written t
    → IsClean t
unfolding key_base64_to_hex
key-IsClean decode b64 t e = checked_key-IsClean (decode (trim_space b64)) t e

-- What a text was made of.
pub made :
    {E F : Type 0} (f : E → F) (r : Written E) (next : Text → Written F) (t : Text)
    → and_then f r next ≡ written t
    → (u : Text) × (r ≡ written u) × (next u ≡ written t)
made f (failed e) next t h = absurd (cc)
made f (written u) next t h = (u, refl, h)

-- The texts of a peer that are written as they are.
abbrev pub IsCleanPeer : Peer → Type 0
IsCleanPeer p = IsClean p.endpoint × All IsClean p.allowed_ips
