-- ===== src/Doctor.antt =====
-- core/doctor/doctor.go: the checks of the host.
pub mod Counts
use mazzy_vpn.Base.{
  ℕ, ◌+◌, Bool, true, false, List, [], ◌∷◌, ◌++◌, if◌then◌else◌, Text, codes, nat_beq,
}

pub data Level : Type 0 where
  ok warn fail : Level

-- Level.String
abbrev pub level_text : Level → Text
level_text ok = codes "OK"
level_text warn = codes "WARN"
level_text fail = codes "FAIL"

pub record Check : Type 0 where
  pub name : Text
  pub level : Level
  pub status : Text
  pub detail : Text

pub record Report : Type 0 where
  pub checks : List Check
  pub ok : ℕ
  pub warn : ℕ
  pub fail : ℕ

unfoldable pub is_healthy : Report → Bool
is_healthy r = nat_beq r.fail 0

pub record Environment : Type 0 where
  pub look_path : Text → Bool
  pub file_exists : Text → Bool
  pub is_root : Bool

abbrev pub count : Level → Report → Report
count ok r = record r { ok = r.ok + 1 }
count warn r = record r { warn = r.warn + 1 }
count fail r = record r { fail = r.fail + 1 }

-- The closure `add` of Run.
unfoldable pub add : Text → Level → Text → Report → Report
add name level detail r =
    let c : Check = record {
      name = name;
      level = level;
      status = level_text level;
      detail = detail;
    } in
    let counted : Report = count level r in record counted { checks = counted.checks ++ c ∷ [] }

abbrev pub empty_report : Report
empty_report = record { checks = []; ok = 0; warn = 0; fail = 0 }

abbrev add_ip : Environment → Report → Report
add_ip env =
    if env.look_path (codes "ip")
    then add (codes "iproute2 (ip)") ok (codes "present")
    else add (codes "iproute2 (ip)") fail (codes "required for routing")

abbrev add_nft : Environment → Report → Report
add_nft env =
    if env.look_path (codes "nft")
    then add (codes "nftables (nft)") ok (codes "present")
    else add (codes "nftables (nft)") fail (codes "required for leak guard")

abbrev add_dns : Environment → Report → Report
add_dns env =
    if env.look_path (codes "resolvectl")
    then add (codes "DNS backend") ok (codes "resolvectl")
    else if env.look_path (codes "resolvconf")
    then add (codes "DNS backend") warn (codes "resolvconf (stdin backend pending)")
    else add (codes "DNS backend") warn (codes "no resolvectl/resolvconf; VPN DNS may not apply")

abbrev add_tun : Environment → Report → Report
add_tun env =
    if env.file_exists (codes "/dev/net/tun")
    then add (codes "TUN device (/dev/net/tun)") ok (codes "present")
    else add (codes "TUN device (/dev/net/tun)") fail (codes "missing; cannot create tunnel")

abbrev add_privilege : Environment → Report → Report
add_privilege env =
    if env.is_root
    then add (codes "privilege") ok (codes "running as root")
    else add (codes "privilege") warn (codes "not root; connect/disconnect need privilege")

-- The function Run.
unfoldable pub run : Environment → Report
run env =
    add (codes "AmneziaWG engine") ok (codes "embedded (no awg/awg-quick required)")
      (add_privilege env (add_tun env (add_dns env (add_nft env (add_ip env empty_report)))))
