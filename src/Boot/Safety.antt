-- ===== src/Boot/Safety.antt =====
-- Mutations are blocked until a ready state is on disk (core/bootrecovery/bootrecovery.go).
use mazzy_vpn.Base.{
  ◌≡◌, Bool, true, false, none, List, [], ◌∷◌, ◌++◌, refl, arith, inl, inr, ◌⊎◌, ◌==◌, ap, ◌∙◌,
  Option-cases, All,
}
use mazzy_vpn.Boot.File.{
  FileView, absent, not_regular, regular, Disk, Faults, write_in_dir, write_in_dir_atomic,
}
use mazzy_vpn.Boot.Gate.{
  view_state, serves, exit_code, State, running, test_recovery, awaiting_egress, awaiting_clean,
  ready, recovery_only, unknown, other, state_text, is_valid, write, read, mutation_allowed,
  service_gate, service_exit_code, is_ready,
}

view_state_text :
    (s : State) → is_valid s ≡ true → view_state true (regular (state_text s ++ b'\n' ∷ [])) ≡ s
unfolding view_state state_text ◌==◌
view_state_text running h = refl
view_state_text test_recovery h = refl
view_state_text awaiting_egress h = refl
view_state_text awaiting_clean h = refl
view_state_text ready h = refl
view_state_text recovery_only h = refl
view_state_text unknown h = cc
view_state_text (other t) h = cc

view_state_unreadable : (v : FileView) → view_state false v ≡ unknown
unfolding view_state
view_state_unreadable absent = refl
view_state_unreadable not_regular = refl
view_state_unreadable (regular t) = refl

blocked_text :
    (readable : Bool) (s : State)
    → is_valid s ≡ true
    → is_ready s ≡ false
    → is_ready (view_state readable (regular (state_text s ++ b'\n' ∷ []))) ≡ false
blocked_text true s v n = ap is_ready (view_state_text s v) ∙ n
blocked_text false s v n =
    ap is_ready (view_state_unreadable (regular (state_text s ++ b'\n' ∷ [])))

write-ok :
    (f : Faults) (s : State) (d : Disk)
    → (write f s d).1 ≡ none
    → (is_valid s ≡ true) × ((write f s d).0.file ≡ regular (state_text s ++ b'\n' ∷ []))
unfolding write
write-ok f s d h =
    let content = state_text s ++ b'\n' ∷ [] in
    ground (arith, write_in_dir_atomic f content d, Option-cases (write_in_dir f content d).1)

-- A state that Write reports as written is the state that Read returns, and the gates then answer
-- as that state permits.
pub gates-write :
    (f : Faults) (s : State) (d : Disk)
    → (write f s d).1 ≡ none
    → (read true (write f s d).0 ≡ s)
      × (mutation_allowed true true (write f s d).0 ≡ is_ready s)
      × (service_gate true true (write f s d).0 ≡ serves s)
      × (service_exit_code true (write f s d).0 ≡ exit_code s)
unfolding read mutation_allowed service_gate service_exit_code
gates-write f s d h =
    let w = write-ok f s d h in
    let e = ap (view_state true) w.1 ∙ view_state_text s w.0 in
    (e, ap is_ready e, ap serves e, ap exit_code e)

-- What Write does to the file, an error or not: nothing, or the valid state it was given.
write-file :
    (f : Faults) (s : State) (d : Disk)
    → ((write f s d).0.file ≡ d.file)
      ⊎ ((is_valid s ≡ true) × ((write f s d).0.file ≡ regular (state_text s ++ b'\n' ∷ [])))
unfolding write
write-file f s d =
    let content = state_text s ++ b'\n' ∷ [] in ground (arith, write_in_dir_atomic f content d)

-- One attempt to record a state, with the calls that fail in it.
abbrev pub Attempt : Type 0
Attempt = Faults × State

unfoldable pub attempts : List Attempt → Disk → Disk
attempts [] d = d
attempts ((f, s) ∷ rest) d = attempts rest (write f s d).0

abbrev pub IsBlocked : Disk → Type 0
IsBlocked d = (readable : Bool) → mutation_allowed true readable d ≡ false

write-IsBlocked :
    (f : Faults) (s : State) (d : Disk)
    → is_ready s ≡ false
    → IsBlocked d
    → IsBlocked (write f s d).0
unfolding read mutation_allowed
write-IsBlocked f s d n h readable = elim (write-file f s d) [
  | inl e ↦ ap (λ v. is_ready (view_state readable v)) e ∙ h readable
  | inr w ↦ ap (λ v. is_ready (view_state readable v)) w.1 ∙ blocked_text readable s w.0 n
]

-- However many states are recorded, whatever calls fail and whether or not the file can be read,
-- the mutation gate stays closed until a ready state has been recorded.
pub attempts-IsBlocked :
    (ws : List Attempt) (d : Disk)
    → All (λ w. is_ready w.1 ≡ false) ws
    → IsBlocked d
    → IsBlocked (attempts ws d)
unfolding attempts
attempts-IsBlocked [] d n h = h
attempts-IsBlocked ((f, s) ∷ ws) d n h =
    attempts-IsBlocked ws (write f s d).0 n.1 (write-IsBlocked f s d n.0 h)
