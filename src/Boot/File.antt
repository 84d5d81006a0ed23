-- ===== src/Boot/File.antt =====
-- One file that is replaced by temp file, fsync and rename, as both core/bootrecovery and core/state
-- write it. Each system call succeeds or fails as `Faults` says.
use mazzy_vpn.Base.{
  ◌≡◌, is_some, Bool, true, false, not, Option, none, some, List, [], ◌∷◌, if◌then◌else◌, Text,
  arith, ◌⊎◌, inl, inr, refl, Bool-cases,
}

-- What stands at the path.
pub data FileView : Type 0 where
  absent not_regular : FileView
  regular : Text → FileView

-- The file, and the contents of the temporary files that are left beside it, each under a name of its own.
pub record Disk : Type 0 where
  pub file : FileView
  pub temps : List Text

-- Which calls succeed, and what a write, sync or close that fails leaves in the temporary file.
pub record Faults : Type 0 where
  pub mkdir : Bool
  pub chmod_dir : Bool
  pub create_temp : Bool
  pub chmod_temp : Bool
  pub write : Bool
  pub torn : Text
  pub sync : Bool
  pub close : Bool
  pub remove : Bool
  pub rename : Bool
  pub open_dir : Bool
  pub sync_dir : Bool

pub data IoError : Type 0 where
  mkdir_failed chmod_failed create_failed write_failed sync_failed close_failed : IoError
  rename_failed open_dir_failed sync_dir_failed : IoError

-- os.Remove of the temporary file, which has the content t, its error ignored.
abbrev left_over : Faults → Text → Disk → Disk
left_over f t d = if f.remove then d else record d { temps = t ∷ d.temps }

-- os.Rename puts the temporary file, with what it holds, at the path: it replaces what stands there, a
-- symbolic link too.
abbrev renamed : Text → Disk → Disk
renamed t d = record d { file = regular t }

-- The content of the temporary file after a call on it.
abbrev after_call : Bool → Faults → Text → Text
after_call works f t = if works then t else f.torn

-- fsyncDir of core/state; the tail of atomicWrite in core/bootrecovery.
unfoldable pub fsync_dir : Faults → Option IoError
fsync_dir f =
    if not f.open_dir
    then some open_dir_failed
    else if not f.sync_dir
    then some sync_dir_failed
    else none

unfoldable pub atomic_write : Faults → Text → Disk → Disk × Option IoError
unfolding fsync_dir
atomic_write f content d =
    if not f.create_temp
    then (d, some create_failed)
    else if not f.chmod_temp
    then (left_over f [] d, some chmod_failed)
    else let written = after_call f.write f content in
      if not f.write
      then (left_over f written d, some write_failed)
      else let synced = after_call f.sync f written in
        if not f.sync
        then (left_over f synced d, some sync_failed)
        else let closed = after_call f.close f synced in
          if not f.close
          then (left_over f closed d, some close_failed)
          else if not f.rename
          then (left_over f closed d, some rename_failed)
          else (renamed closed d, fsync_dir f)

-- os.MkdirAll and os.Chmod of the directory, then the write.
unfoldable pub write_in_dir : Faults → Text → Disk → Disk × Option IoError
unfolding atomic_write
write_in_dir f content d =
    if not f.mkdir
    then (d, some mkdir_failed)
    else if not f.chmod_dir
    then (d, some chmod_failed)
    else atomic_write f content d

-- The file is the old one or the new content, the latter if no error is reported.
pub write_in_dir_atomic :
    (f : Faults) (content : Text) (d : Disk)
    → let r = write_in_dir f content d in
      ((r.0.file ≡ d.file) ⊎ (r.0.file ≡ regular content))
      × (r.1 ≡ none → r.0.file ≡ regular content)
      × (f.remove ≡ true → r.0.temps ≡ d.temps)
unfolding write_in_dir
write_in_dir_atomic f content d = ground arith

-- What a call of os.Remove leaves of the temporary file.
left_over-temps :
    (f : Faults) (t : Text) (d : Disk)
    → ((left_over f t d).temps ≡ d.temps)
      ⊎ ((f.remove ≡ false) × (u : Text) × ((left_over f t d).temps ≡ u ∷ d.temps))
left_over-temps f t d = elim (Bool-cases f.remove) [
  | inl on ↦ inl (rw on refl)
  | inr off ↦ inr (off, t, rw off refl)
]

abbrev IsOldOrNew : Faults → Text → Disk → Disk × Option IoError → Type 0
IsOldOrNew f content d r =
    ((r.0.file ≡ regular content) ⊎ ((r.0.file ≡ d.file) × (is_some r.1 ≡ true)))
    × ((r.0.temps ≡ d.temps) ⊎ ((f.remove ≡ false) × (t : Text) × (r.0.temps ≡ t ∷ d.temps)))

test-IsOldOrNew :
    (f : Faults) (content : Text) (d : Disk) (b : Bool) (x y : Disk × Option IoError)
    → IsOldOrNew f content d x
    → (b ≡ false → IsOldOrNew f content d y)
    → IsOldOrNew f content d (if b then x else y)
test-IsOldOrNew f content d true x y p q = p
test-IsOldOrNew f content d false x y p q = q refl

left_over-IsOldOrNew :
    (f : Faults) (content t : Text) (d : Disk) (e : IoError)
    → IsOldOrNew f content d (left_over f t d, some e)
left_over-IsOldOrNew f content t d e = (inr (ground arith, refl), left_over-temps f t d)

atomic_write-IsOldOrNew :
    (f : Faults) (content : Text) (d : Disk) → IsOldOrNew f content d (atomic_write f content d)
unfolding atomic_write
atomic_write-IsOldOrNew f content d =
    let left = left_over-IsOldOrNew f content in
    test-IsOldOrNew f content d (not f.create_temp) _ _ (inr (refl, refl), inl refl)
      (λ _. test-IsOldOrNew f content d (not f.chmod_temp) _ _ (left [] d chmod_failed) (λ _.
        test-IsOldOrNew f content d (not f.write) _ _ (left _ d write_failed) (λ w.
          test-IsOldOrNew f content d (not f.sync) _ _ (left _ d sync_failed) (λ s.
            test-IsOldOrNew f content d (not f.close) _ _ (left _ d close_failed) (λ c.
              test-IsOldOrNew f content d (not f.rename) _ _ (left _ d rename_failed)
                (λ _. (inl (ground (arith, w, s, c)), inl refl)))))))

-- Whatever call fails, and whatever a write, sync or close that fails leaves in the temporary file: the
-- file afterwards has the whole new content, or it is the old one and an error is reported; and the
-- temporary file is left behind only if its removal failed.
pub write_in_dir-old_or_new :
    (f : Faults) (content : Text) (d : Disk)
    → let r = write_in_dir f content d in
      ((r.0.file ≡ regular content) ⊎ ((r.0.file ≡ d.file) × (is_some r.1 ≡ true)))
      × ((r.0.temps ≡ d.temps) ⊎ ((f.remove ≡ false) × (t : Text) × (r.0.temps ≡ t ∷ d.temps)))
unfolding write_in_dir
write_in_dir-old_or_new f content d =
    test-IsOldOrNew f content d (not f.mkdir) _ _ (inr (refl, refl), inl refl)
      (λ _.
        test-IsOldOrNew f content d (not f.chmod_dir) _ _ (inr (refl, refl), inl refl)
          (λ _. atomic_write-IsOldOrNew f content d))
