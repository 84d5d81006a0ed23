-- ===== src/Connect/Gated.antt =====
-- Up of core/connect/connect.go under the boot gate of core/bootrecovery/bootrecovery.go.
use mazzy_vpn.Base.{◌⊎◌, ◌≡◌, Bool, true, false, some, List, Text, arith, All}
use mazzy_vpn.Profile.{Config}
use mazzy_vpn.Boot.File.{Disk}
use mazzy_vpn.Boot.Gate.{is_ready, mutation_allowed}
use mazzy_vpn.Boot.Safety.{Attempt, attempts, IsBlocked, attempts-IsBlocked}
use mazzy_vpn.Protocols.{Protocol}
use mazzy_vpn.Network.{Log, Host}
use mazzy_vpn.Connect.{unsupported, boot_recovery_pending, failed, up}

-- While no ready state has been recorded since a disk that is not ready, Up under the boot gate takes
-- no step at all, whatever states are recorded and whatever calls fail, and returns an error.
pub up-blocked :
    (ws : List Attempt) (d : Disk) (readable : Bool)
    → All (λ w. is_ready w.1 ≡ false) ws
    → IsBlocked d
    → (h : Host) (proto : Protocol) (cfg : Config) (uplink : Text) (l : Log)
    → let gate = mutation_allowed true readable (attempts ws d) in
      let r = up h proto cfg (record { boot_gate = some gate; uplink = uplink }) l in
      (r.1 ≡ l) × ((r.0 ≡ failed unsupported) ⊎ (r.0 ≡ failed boot_recovery_pending))
unfolding up
up-blocked ws d readable n b h proto cfg uplink l =
    ground (arith, attempts-IsBlocked ws d n b readable)
