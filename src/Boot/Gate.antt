-- ===== src/Boot/Gate.antt =====
-- The states of boot recovery and what each permits (core/bootrecovery/bootrecovery.go).
use mazzy_vpn.Base.{
  ℕ, Bool, true, false, not, Option, none, some, [], ◌∷◌, ◌++◌, if◌then◌else◌, Text, codes, ◌==◌,
  trim_space,
}
use mazzy_vpn.Boot.File.{
  FileView, absent, not_regular, regular, Disk, Faults, IoError, write_in_dir,
}

pub data State : Type 0 where
  running test_recovery awaiting_egress awaiting_clean ready recovery_only unknown : State
  other : Text → State

unfoldable pub state_text : State → Text
state_text running = codes "running"
state_text test_recovery = codes "test-recovery"
state_text awaiting_egress = codes "awaiting-egress"
state_text awaiting_clean = codes "awaiting-cleanup"
state_text ready = codes "ready"
state_text recovery_only = codes "recovery-only"
state_text unknown = []
state_text (other t) = t

-- The state that a text names: one of the valid states, else Unknown.
unfoldable pub valid_state : Text → State
valid_state t =
    if t == codes "running"
    then running
    else if t == codes "test-recovery"
    then test_recovery
    else if t == codes "awaiting-egress"
    then awaiting_egress
    else if t == codes "awaiting-cleanup"
    then awaiting_clean
    else if t == codes "ready"
    then ready
    else if t == codes "recovery-only"
    then recovery_only
    else unknown

-- validStates
abbrev pub is_valid : State → Bool
is_valid unknown = false
is_valid (other _) = false
is_valid _ = true

pub data WriteError : Type 0 where
  invalid_state : WriteError
  io : IoError → WriteError

abbrev lift_error : Option IoError → Option WriteError
lift_error none = none
lift_error (some e) = some (io e)

-- The method Write.
unfoldable pub write : Faults → State → Disk → Disk × Option WriteError
unfolding state_text
write f s d =
    if not (is_valid s)
    then (d, some invalid_state)
    else let r = write_in_dir f (state_text s ++ b'\n' ∷ []) d in (r.0, lift_error r.1)

-- What Read makes of the path; `readable` says whether os.ReadFile succeeds.
unfoldable pub view_state : Bool → FileView → State
unfolding valid_state trim_space
view_state readable absent = unknown
view_state readable not_regular = unknown
view_state readable (regular content) =
    if readable then valid_state (trim_space content) else unknown

-- The method Read.
unfoldable pub read : Bool → Disk → State
unfolding view_state
read readable d = view_state readable d.file

abbrev pub is_ready : State → Bool
is_ready ready = true
is_ready _ = false

abbrev pub serves : State → Bool
serves ready = true
serves awaiting_egress = true
serves awaiting_clean = true
serves _ = false

unfoldable pub mutation_allowed : Bool → Bool → Disk → Bool
mutation_allowed required readable d = if not required then true else is_ready (read readable d)

unfoldable pub service_gate : Bool → Bool → Disk → Bool
service_gate required readable d = if not required then true else serves (read readable d)

abbrev pub exit_code : State → ℕ
exit_code running = 75
exit_code test_recovery = 75
exit_code awaiting_egress = 0
exit_code awaiting_clean = 0
exit_code recovery_only = 77
exit_code _ = 77

unfoldable pub service_exit_code : Bool → Disk → ℕ
service_exit_code readable d = exit_code (read readable d)
