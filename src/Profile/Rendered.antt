-- ===== src/Profile/Rendered.antt =====
-- The lines that the engine reads are the settings of the configuration (core/profile/uapi.go).
use mazzy_vpn.Base.{
  if◌then◌else◌, ℕ, suc, ◌≡◌, refl, ap, Option, List, [], ◌∷◌, ◌++◌, map, Text, codes, ◌==◌,
  nat_beq, any, All, format_ℕ, Bool-cases, subst, inl, inr,
}
use mazzy_vpn.Base.Dict.{Dict}
use mazzy_vpn.Protocols.{Protocol, amneziawg}
use mazzy_vpn.Intent.{split_lines}
use mazzy_vpn.Profile.{Peer, Config}
use mazzy_vpn.Profile.Uapi.{
  preshared_key, public_key, peer, private_key, written, key_base64_to_hex, line,
  amnezia_uapi_order, preshared_line, endpoint_line, write_peer, write_peers, mark_line,
  amnezia_part, to_uapi_with_mark,
}
use mazzy_vpn.Profile.Lines.{
  IsClean, Renders, none-Renders, split_lines-Renders, Renders-append, setting, line-Renders,
}
use mazzy_vpn.Profile.Values.{
  positive_setting, amnezia_settings, AreClean, text_of, number-IsClean, IsCleanPeer,
  positive_line-Renders, allowed_lines-Renders, amnezia_lines-Renders, order-IsClean, key-IsClean,
  made,
}

module _ (decode : Text → Option (List ℕ)) where
  abbrev pub key_text : Text → Text
  key_text b64 = text_of (key_base64_to_hex decode b64)

  key_line-Renders :
      (name b64 t : Text)
      → IsClean name
      → key_base64_to_hex decode b64 ≡ written t
      → Renders (setting name (key_text b64) ∷ []) (line name t)
  key_line-Renders name b64 t h e = rw e (line-Renders name t h (key-IsClean decode b64 t e))

  named : IsClean (codes "preshared_key")
  unfolding any
  named = refl

  abbrev pub preshared_settings : Text → List Text
  preshared_settings b64 =
      if b64 == [] then [] else setting (codes "preshared_key") (key_text b64) ∷ []

  preshared_line-Renders :
      (b64 t : Text) → preshared_line decode b64 ≡ written t → Renders (preshared_settings b64) t
  preshared_line-Renders b64 t e = elim (Bool-cases (b64 == [])) [
    | inl none_set ↦
        rw none_set (let g = rw none_set at e in subst (Renders []) (ap text_of g) none-Renders)
    | inr is_set ↦ rw is_set (
        let g = rw is_set at e in
        let m =
          made preshared_key (key_base64_to_hex decode b64)
            (λ psk. written (line (codes "preshared_key") psk)) t g in
        subst (Renders (setting (codes "preshared_key") (key_text b64) ∷ [])) (ap text_of m.2)
          (key_line-Renders (codes "preshared_key") b64 m.0 named m.1))
  ]

  abbrev pub endpoint_settings : Text → List Text
  endpoint_settings ep = if ep == [] then [] else setting (codes "endpoint") ep ∷ []

  endpoint_line-Renders :
      (ep : Text) → IsClean ep → Renders (endpoint_settings ep) (endpoint_line decode ep)
  unfolding any
  endpoint_line-Renders ep h = elim (Bool-cases (ep == [])) [
    | inl none_set ↦ rw none_set none-Renders
    | inr is_set ↦ rw is_set (line-Renders (codes "endpoint") ep refl h)
  ]

  -- The lines of a peer, in the order of the engine's protocol.
  abbrev pub peer_settings : Peer → List Text
  peer_settings p =
      setting (codes "public_key") (key_text p.public_key) ∷ []
      ++ preshared_settings p.preshared_key
      ++ endpoint_settings p.endpoint
      ++ positive_setting (codes "persistent_keepalive_interval") p.persistent_keepalive
      ++ map (setting (codes "allowed_ip")) p.allowed_ips

  write_peer-Renders :
      (p : Peer) (t : Text)
      → IsCleanPeer p
      → write_peer decode p ≡ written t
      → Renders (peer_settings p) t
  unfolding write_peer any
  write_peer-Renders p t h e =
      let m = made public_key (key_base64_to_hex decode p.public_key) _ t e in
      let n = made (λ x. x) (preshared_line decode p.preshared_key) _ t m.2 in
      subst (Renders (peer_settings p)) (ap text_of n.2) (
        Renders-append _ _ _ _
          (Renders-append _ _ _ _
            (Renders-append _ _ _ _
              (Renders-append _ _ _ _
                (key_line-Renders (codes "public_key") p.public_key m.0 refl m.1)
                (preshared_line-Renders p.preshared_key n.0 n.1))
              (endpoint_line-Renders p.endpoint h.0))
            (positive_line-Renders (codes "persistent_keepalive_interval") p.persistent_keepalive
              refl))
          (allowed_lines-Renders p.allowed_ips h.1))

  abbrev pub peers_settings : List Peer → List Text
  peers_settings [] = []
  peers_settings (p ∷ ps) = peer_settings p ++ peers_settings ps

  write_peers-Renders :
      (i : ℕ) (ps : List Peer) (t : Text)
      → All IsCleanPeer ps
      → write_peers decode i ps ≡ written t
      → Renders (peers_settings ps) t
  unfolding write_peers
  write_peers-Renders i [] t h e = subst (Renders []) (ap text_of e) none-Renders
  write_peers-Renders i (p ∷ ps) t h e =
      let m = made (peer i) (write_peer decode p) _ t e in
      let n = made (λ x. x) (write_peers decode (suc i) ps) _ t m.2 in
      subst (Renders (peers_settings (p ∷ ps))) (ap text_of n.2) (
        Renders-append _ _ _ _ (write_peer-Renders p m.0 h.0 m.1)
          (write_peers-Renders (suc i) ps n.0 h.1 n.1))

  abbrev pub mark_settings : ℕ → List Text
  mark_settings mark = if nat_beq mark 0 then [] else setting (codes "fwmark") (format_ℕ mark) ∷ []

  mark_line-Renders : (mark : ℕ) → Renders (mark_settings mark) (mark_line decode mark)
  unfolding any
  mark_line-Renders mark = elim (Bool-cases (nat_beq mark 0)) [
    | inl unset ↦ rw unset none-Renders
    | inr is_set ↦
        rw is_set (line-Renders (codes "fwmark") (format_ℕ mark) refl (number-IsClean mark))
  ]

  abbrev pub amnezia_part_settings : Protocol → Dict Text → List Text
  amnezia_part_settings proto a =
      if proto == amneziawg then amnezia_settings amnezia_uapi_order a else []

  amnezia_part-Renders :
      (proto : Protocol) (a : Dict Text)
      → AreClean a
      → Renders (amnezia_part_settings proto a) (amnezia_part decode proto a)
  amnezia_part-Renders proto a h = elim (Bool-cases (proto == amneziawg)) [
    | inl is_amnezia ↦ rw is_amnezia (amnezia_lines-Renders amnezia_uapi_order a order-IsClean h)
    | inr other ↦ rw other none-Renders
  ]

  -- The lines of a configuration.
  abbrev pub settings : Protocol → Config → ℕ → List Text
  settings proto c mark =
      setting (codes "private_key") (key_text c.private_key) ∷ []
      ++ positive_setting (codes "listen_port") c.listen_port
      ++ mark_settings mark
      ++ amnezia_part_settings proto c.amnezia
      ++ setting (codes "replace_peers") (codes "true") ∷ []
      ++ peers_settings c.peers

  -- Where no endpoint, allowed address or AmneziaWG value has a newline in it, what is written for the
  -- engine is read line by line as the settings of the configuration in their order and nothing else:
  -- no value adds a line of its own.
  pub split_lines-to_uapi_with_mark :
      (proto : Protocol) (c : Config) (mark : ℕ) (out : Text)
      → AreClean c.amnezia
      → All IsCleanPeer c.peers
      → to_uapi_with_mark decode proto c mark ≡ written out
      → split_lines out ≡ settings proto c mark
  unfolding to_uapi_with_mark any
  split_lines-to_uapi_with_mark proto c mark out h k e =
      let m = made private_key (key_base64_to_hex decode c.private_key) _ out e in
      let n = made (λ x. x) (write_peers decode 0 c.peers) _ out m.2 in
      split_lines-Renders (settings proto c mark) out (
        subst (Renders (settings proto c mark)) (ap text_of n.2) (
          Renders-append _ _ _ _
            (Renders-append _ _ _ _
              (Renders-append _ _ _ _
                (Renders-append _ _ _ _
                  (Renders-append _ _ _ _
                    (key_line-Renders (codes "private_key") c.private_key m.0 refl m.1)
                    (positive_line-Renders (codes "listen_port") c.listen_port refl))
                  (mark_line-Renders mark))
                (amnezia_part-Renders proto c.amnezia h))
              (line-Renders (codes "replace_peers") (codes "true") refl refl))
            (write_peers-Renders 0 c.peers n.0 k n.1)))
