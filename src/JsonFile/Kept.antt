-- ===== src/JsonFile/Kept.antt =====
-- What a JSON file holds after a write, and what is read from it then (core/settings/settings.go,
-- mazzy-vpn-cli/cmd/mazzy-vpn/desired.go).
use mazzy_vpn.Base.{
  ◌≡◌, ◌⊎◌, refl, ◌∙◌, Bool, true, false, not, Option, none, some, if◌then◌else◌, Text, inl, inr,
  is_some, arith, ap,
}
use mazzy_vpn.JsonFile.{
  Codec, Disk, Calls, SaveError, put_text, save, decoded, load, Settings, or_default, load_settings,
  save_settings, mkdir_failed, rename_failed, write_failed, or_old,
}

-- What is encoded is read back as the same value.
abbrev pub IsFaithful : {A : Type 0} → Codec A → Type 0
IsFaithful {A} codec = (x : A) (t : Text) → codec.encode x ≡ some t → codec.decode t ≡ some x

-- The file of d is kept with an error, or it is the content without one.
abbrev pub Saved : Option Text → Disk → Disk × Option SaveError → Type 0
Saved content d r =
    ((is_some r.1 ≡ true) × (r.0.file ≡ d.file)) ⊎ ((r.1 ≡ none) × (r.0.file ≡ content))

written :
    (w n : Bool) (torn t : Option Text) (d : Disk)
    → Saved t d (
        if not w
        then (record d { temp = torn }, some write_failed)
        else if not n
        then (record d { temp = t }, some rename_failed)
        else (record { file = t; temp = none }, none))
written false n torn t d = inl (refl, refl)
written true false torn t d = inl (refl, refl)
written true true torn t d = inr (refl, refl)

put_text-cases :
    (c : Calls) (content : Option Text) (d : Disk) → Saved content d (put_text c content d)
put_text-cases c none d = inl (refl, refl)
put_text-cases c (some t) d = written c.write c.rename (or_old c.torn d.temp) (some t) d

guarded :
    (m : Bool) (d : Disk) (content : Option Text) (r : Disk × Option SaveError)
    → Saved content d r
    → Saved content d (if not m then (d, some mkdir_failed) else r)
guarded false d content r h = inl (refl, refl)
guarded true d content r h = h

save-cases :
    {A : Type 0} (codec : Codec A) (c : Calls) (x : A) (d : Disk)
    → Saved (codec.encode x) d (save codec c x d)
unfolding save
save-cases codec c x d =
    guarded c.mkdir d (codec.encode x) (put_text c (codec.encode x) d)
      (put_text-cases c (codec.encode x) d)

decoded-encode :
    {A : Type 0} (codec : Codec A)
    → IsFaithful codec
    → (x : A) (content : Option Text) → codec.encode x ≡ content
    → is_some content ≡ true
    → decoded codec content ≡ some x
decoded-encode codec h x none e s = ground arith
decoded-encode codec h x (some t) e s = h x t e

-- For a codec that encodes every settings value and reads back what it encodes, the settings that are
-- loaded from a readable file after a save are those saved where the save returns no error, and those
-- that were loaded before it where it returns one.
pub load_settings-save_settings :
    (codec : Codec Settings)
    → IsFaithful codec
    → ((s : Settings) → is_some (codec.encode s) ≡ true)
    → (c : Calls) (s : Settings) (d : Disk)
    → let r = save_settings codec c s d in
      ((is_some r.1 ≡ true) × (load_settings codec true r.0 ≡ load_settings codec true d))
      ⊎ ((r.1 ≡ none) × (load_settings codec true r.0 ≡ s))
unfolding load_settings save_settings load save
load_settings-save_settings codec faithful encodes c s d = elim (save-cases codec c s d) [
  | inl (e, same) ↦ inl (e, ap (λ f. or_default (decoded codec f)) same)
  | inr (e, new) ↦ inr (
    e,
    ap (λ f. or_default (decoded codec f)) new
        ∙ ap or_default (decoded-encode codec faithful s (codec.encode s) refl (encodes s)),
  )
]
