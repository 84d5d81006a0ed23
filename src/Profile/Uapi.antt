-- ===== src/Profile/Uapi.antt =====
-- core/profile/uapi.go: a configuration as the lines that the engine's IpcSet reads. The decoding of
-- base64 is a parameter, which gives the bytes.
use mazzy_vpn.Base.{
  ℕ, suc, ◌+◌, ◌-◌, ◌/◌, ◌%◌, not, Option, none, some, List, [], ◌∷◌, ◌++◌, if◌then◌else◌, Text,
  codes, ◌==◌, ℤ, pos, nat_beq, ltb, length, trim_space, format_ℕ,
}
use mazzy_vpn.Base.Dict
use mazzy_vpn.Base.Dict.{Dict}
use mazzy_vpn.Protocols.{Protocol, amneziawg}
use mazzy_vpn.Profile.{Peer, Config}

pub data KeyError : Type 0 where
  not_base64 : KeyError
  wrong_length : ℕ → KeyError

pub data PeerError : Type 0 where
  public_key preshared_key : KeyError → PeerError

pub data UapiError : Type 0 where
  private_key : KeyError → UapiError
  peer : ℕ → PeerError → UapiError

-- A text or why there is none.
pub data Written (E : Type 0) : Type 0 where
  written : Text → Written E
  failed : E → Written E

abbrev pub and_then : {E F : Type 0} → (E → F) → Written E → (Text → Written F) → Written F
and_then f (failed e) next = failed (f e)
and_then f (written t) next = next t

abbrev pub hex_digit : ℕ → ℕ
hex_digit n = if ltb n 10 then b'0' + n else b'a' + (n - 10)

-- hex.EncodeToString
unfoldable pub hex : List ℕ → Text
hex [] = []
hex (b ∷ bs) = hex_digit (b / 16) ∷ hex_digit (b % 16) ∷ hex bs

abbrev pub key_size : ℕ
key_size = 32

abbrev pub checked_key : Option (List ℕ) → Written KeyError
checked_key none = failed not_base64
checked_key (some raw) =
    if not (nat_beq (length raw) key_size)
    then failed (wrong_length (length raw))
    else written (hex raw)

-- `key=value` and a newline.
unfoldable pub line : Text → Text → Text
line key value = key ++ b'=' ∷ value ++ b'\n' ∷ []

-- A line for a number that is above 0.
unfoldable pub positive_line : Text → ℤ → Text
unfolding line
positive_line key (pos (suc n)) = line key (format_ℕ (suc n))
positive_line key _ = []

abbrev pub line_for : Text → Option Text → Text
line_for key none = []
line_for key (some v) = line key v

unfoldable pub allowed_lines : List Text → Text
allowed_lines [] = []
allowed_lines (ip ∷ ips) = line (codes "allowed_ip") ip ++ allowed_lines ips

unfoldable pub amnezia_uapi_order : List Text
amnezia_uapi_order =
    codes "jc"
    ∷ codes "jmin"
    ∷ codes "jmax"
    ∷ codes "s1"
    ∷ codes "s2"
    ∷ codes "s3"
    ∷ codes "s4"
    ∷ codes "h1"
    ∷ codes "h2"
    ∷ codes "h3"
    ∷ codes "h4"
    ∷ codes "i1"
    ∷ codes "i2"
    ∷ codes "i3"
    ∷ codes "i4"
    ∷ codes "i5"
    ∷ codes "header_protection_key"
    ∷ codes "content_padding_addition"
    ∷ codes "random_trailers"
    ∷ codes "disable_cookies"
    ∷ []

-- writeAmnezia
unfoldable pub amnezia_lines : List Text → Dict Text → Text
amnezia_lines [] a = []
amnezia_lines (key ∷ keys) a = line_for key (Dict.get a key) ++ amnezia_lines keys a

module _ (decode : Text → Option (List ℕ)) where
  -- keyBase64ToHex
  unfoldable pub key_base64_to_hex : Text → Written KeyError
  unfolding hex
  key_base64_to_hex b64 = checked_key (decode (trim_space b64))

  abbrev pub preshared_line : Text → Written PeerError
  preshared_line b64 =
      if b64 == []
      then written []
      else and_then preshared_key (key_base64_to_hex b64)
          (λ psk. written (line (codes "preshared_key") psk))

  abbrev pub endpoint_line : Text → Text
  endpoint_line ep = if ep == [] then [] else line (codes "endpoint") ep

  -- writePeer
  unfoldable pub write_peer : Peer → Written PeerError
  unfolding key_base64_to_hex line positive_line allowed_lines ◌==◌
  write_peer p = and_then public_key (key_base64_to_hex p.public_key) (λ key.
      and_then (λ e. e) (preshared_line p.preshared_key)
        (λ psk. written (
          line (codes "public_key") key
          ++ psk
          ++ endpoint_line p.endpoint
          ++ positive_line (codes "persistent_keepalive_interval") p.persistent_keepalive
          ++ allowed_lines p.allowed_ips)))

  unfoldable pub write_peers : ℕ → List Peer → Written UapiError
  unfolding write_peer
  write_peers i [] = written []
  write_peers i (p ∷ ps) =
      and_then (peer i) (write_peer p)
        (λ t. and_then (λ e. e) (write_peers (suc i) ps) (λ rest. written (t ++ rest)))

  abbrev pub mark_line : ℕ → Text
  mark_line mark = if nat_beq mark 0 then [] else line (codes "fwmark") (format_ℕ mark)

  abbrev pub amnezia_part : Protocol → Dict Text → Text
  amnezia_part proto a = if proto == amneziawg then amnezia_lines amnezia_uapi_order a else []

  -- ToUAPIWithMark
  unfoldable pub to_uapi_with_mark : Protocol → Config → ℕ → Written UapiError
  unfolding key_base64_to_hex line positive_line amnezia_lines amnezia_uapi_order write_peers ◌==◌
  to_uapi_with_mark proto c mark = and_then private_key (key_base64_to_hex c.private_key) (λ priv.
      and_then (λ e. e) (write_peers 0 c.peers)
        (λ peers. written (
          line (codes "private_key") priv
          ++ positive_line (codes "listen_port") c.listen_port
          ++ mark_line mark
          ++ amnezia_part proto c.amnezia
          ++ line (codes "replace_peers") (codes "true")
          ++ peers)))

  -- ToUAPI
  unfoldable pub to_uapi : Protocol → Config → Written UapiError
  unfolding to_uapi_with_mark
  to_uapi proto c = to_uapi_with_mark proto c c.fw_mark
