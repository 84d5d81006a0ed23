-- ===== src/Api/Unique.antt =====
-- What rejectDuplicateKeys accepts, and that its loops end (core/api/router.go).
use mazzy_vpn.Base.{
  ℕ, zero, suc, ◌+◌, ◌<◌, ◌≤◌, ◌≡◌, ◌≢◌, refl, ◌∙◌, Option, none, some, List, [], ◌∷◌,
  if◌then◌else◌, Text, contains, arith, Bool-cases, inl, inr, Option-cases,
}
use mazzy_vpn.Api.Tokens.{
  Stream, at_end, broken, next, open_object, close_object, open_array, close_array, string, scalar,
  skip_nested, skip_value, Checked, passed, failed, out_of_fuel, duplicate_key, check_keys,
  reject_duplicate_keys, size, nest, pred,
}
use mazzy_vpn.Api.Value.{
  Value, null, boolean, number, text, array, object, Items, no_items, item, Fields, no_fields,
  field, render, render_items, render_fields,
}

-- Inside an array or an object, a whole value is skipped.
mutual
  unfolding render skip_nested

  skip-render :
      (v : Value) (d : ℕ) (s : Stream) → skip_nested (suc d) (render v s) ≡ skip_nested (suc d) s
  skip-render null d s = refl
  skip-render (boolean b) d s = refl
  skip-render (number n) d s = refl
  skip-render (text t) d s = refl
  skip-render (array xs) d s = skip-items xs (suc d) (next close_array s)
  skip-render (object fs) d s = skip-fields fs (suc d) (next close_object s)

  skip-items :
      (xs : Items) (d : ℕ) (s : Stream)
      → skip_nested (suc d) (render_items xs s) ≡ skip_nested (suc d) s
  skip-items no_items d s = refl
  skip-items (item v xs) d s = skip-render v d (render_items xs s) ∙ skip-items xs d s

  skip-fields :
      (fs : Fields) (d : ℕ) (s : Stream)
      → skip_nested (suc d) (render_fields fs s) ≡ skip_nested (suc d) s
  skip-fields no_fields d s = refl
  skip-fields (field k v fs) d s = skip-render v d (render_fields fs s) ∙ skip-fields fs d s

skip_value-render : (v : Value) (s : Stream) → skip_value (render v s) ≡ some s
unfolding render skip_value skip_nested
skip_value-render null s = refl
skip_value-render (boolean b) s = refl
skip_value-render (number n) s = refl
skip_value-render (text t) s = refl
skip_value-render (array xs) s = skip-items xs 0 (next close_array s)
skip_value-render (object fs) s = skip-fields fs 0 (next close_object s)

-- The first key that stands among the earlier ones.
abbrev pub first_repeated : List Text → Fields → Option Text
first_repeated seen no_fields = none
first_repeated seen (field k v fs) =
    if contains k seen then some k else first_repeated (k ∷ seen) fs

abbrev pub verdict : Option Text → Checked
verdict none = passed
verdict (some k) = failed (duplicate_key k)

abbrev field_count : Fields → ℕ
field_count no_fields = 0
field_count (field _ _ fs) = suc (field_count fs)

check_keys-render :
    (f : ℕ) (seen : List Text) (fs : Fields) (rest : Stream)
    → field_count fs < f
    → check_keys f seen 0 (render_fields fs (next close_object rest))
      ≡ verdict (first_repeated seen fs)
unfolding check_keys render_fields
check_keys-render zero seen fs rest h = absurd (omega arith)
check_keys-render (suc f) seen no_fields rest h = refl
check_keys-render (suc f) seen (field k v fs) rest h = elim (Bool-cases (contains k seen)) [
  | inl old ↦ rw old refl
  | inr new ↦
      rw (new, skip_value-render v (render_fields fs (next close_object rest)))
        (check_keys-render f (k ∷ seen) fs rest (omega arith))
]

-- A whole token stream is at least as long as its fields.
mutual
  unfolding render

  size-render : (v : Value) (s : Stream) → size s < size (render v s)
  size-render null s = omega arith
  size-render (boolean b) s = omega arith
  size-render (number n) s = omega arith
  size-render (text t) s = omega arith
  size-render (array xs) s = omega (arith, size-render_items xs (next close_array s))
  size-render (object fs) s = omega (arith, size-render_fields fs (next close_object s))

  size-render_items : (xs : Items) (s : Stream) → size s ≤ size (render_items xs s)
  size-render_items no_items s = omega arith
  size-render_items (item v xs) s =
      omega (arith, size-render v (render_items xs s), size-render_items xs s)

  size-render_fields :
      (fs : Fields) (s : Stream) → field_count fs + size s ≤ size (render_fields fs s)
  size-render_fields no_fields s = omega arith
  size-render_fields (field k v fs) s =
      omega (arith, size-render v (render_fields fs s), size-render_fields fs s)

-- On the tokens of a JSON object, whatever follows it, the check names the first key that repeats an
-- earlier one, however deeply the values are nested and whatever keys they have, and it passes
-- exactly when there is none.
pub reject_duplicate_keys-render :
    (fs : Fields) (rest : Stream)
    → reject_duplicate_keys (render (object fs) rest) ≡ verdict (first_repeated [] fs)
unfolding reject_duplicate_keys render
reject_duplicate_keys-render fs rest =
    check_keys-render (suc (size (render_fields fs (next close_object rest)))) [] fs rest
      (omega (arith, size-render_fields fs (next close_object rest)))

skip_nested-size : (d : ℕ) (s s' : Stream) → skip_nested d s ≡ some s' → size s' ≤ size s
unfolding skip_nested
skip_nested-size zero s s' e = ground arith
skip_nested-size (suc d) at_end s' e = cc
skip_nested-size (suc d) (broken b) s' e = cc
skip_nested-size (suc d) (next t s) s' e = omega (arith, skip_nested-size (nest t (suc d)) s s' e)

skip_value-size : (s s' : Stream) → skip_value s ≡ some s' → size s' ≤ size s
unfolding skip_value
skip_value-size at_end s' e = cc
skip_value-size (broken b) s' e = cc
skip_value-size (next open_object s) s' e = omega (arith, skip_nested-size 1 s s' e)
skip_value-size (next open_array s) s' e = omega (arith, skip_nested-size 1 s s' e)
skip_value-size (next close_object s) s' e = ground arith
skip_value-size (next close_array s) s' e = ground arith
skip_value-size (next (string t) s) s' e = ground arith
skip_value-size (next scalar s) s' e = ground arith

check_keys-total :
    (f : ℕ) (seen : List Text) (d : ℕ) (s : Stream)
    → size s < f
    → check_keys f seen d s ≢ out_of_fuel
unfolding check_keys
check_keys-total zero seen d s h = absurd (omega arith)
check_keys-total (suc f) seen d at_end h = ground arith
check_keys-total (suc f) seen d (broken b) h = ground arith
check_keys-total (suc f) seen zero (next (string k) s) h = elim (Option-cases (skip_value s)) [
  | inl e ↦ ground arith
  | inr (s', e) ↦ ground (arith, skip_value-size s s' e, check_keys-total f (k ∷ seen) 0 s')
]
check_keys-total (suc f) seen (suc d) (next (string k) s) h =
    ground (arith, check_keys-total f seen (suc d) s)
check_keys-total (suc f) seen d (next open_object s) h =
    ground (arith, check_keys-total f seen (suc d) s)
check_keys-total (suc f) seen d (next open_array s) h =
    ground (arith, check_keys-total f seen (suc d) s)
check_keys-total (suc f) seen d (next close_object s) h =
    ground (arith, check_keys-total f seen (pred d) s)
check_keys-total (suc f) seen d (next close_array s) h =
    ground (arith, check_keys-total f seen (pred d) s)
check_keys-total (suc f) seen d (next scalar s) h = ground (arith, check_keys-total f seen d s)

-- On any tokens, those of broken and endless nesting too, the loops of the check end: one more round than
-- there are tokens is enough.
pub reject_duplicate_keys-total : (s : Stream) → reject_duplicate_keys s ≢ out_of_fuel
unfolding reject_duplicate_keys
reject_duplicate_keys-total at_end = ground arith
reject_duplicate_keys-total (broken b) = ground arith
reject_duplicate_keys-total (next open_object s) =
    check_keys-total (suc (size s)) [] 0 s (omega arith)
reject_duplicate_keys-total (next close_object s) = ground arith
reject_duplicate_keys-total (next open_array s) = ground arith
reject_duplicate_keys-total (next close_array s) = ground arith
reject_duplicate_keys-total (next (string t) s) = ground arith
reject_duplicate_keys-total (next scalar s) = ground arith
