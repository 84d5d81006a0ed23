-- ===== src/Intent/Lines.antt =====
-- The lines of the intent file (core/state/state.go) are read as they are printed.
use mazzy_vpn.Base.{
  ℕ, ◌+◌, ◌≡◌, ◌⊎◌, refl, ap, Bool, true, false, not, ◌&&◌, some, [], ◌∷◌, ◌++◌, any, length, Text,
  codes, ◌==◌, ==_iff, nat_beq, leb, arith,
}
use mazzy_vpn.Intent.{split_lines, drop_cr, cut, base_name, strip_slashes, last_element, is_slash}

abbrev pub is_newline : ℕ → Bool
is_newline c = nat_beq c b'\n'

-- A value that survives being a line: no newline, no carriage return at its end, and short.
abbrev pub is_field : Text → Bool
is_field v = not (any is_newline v) && drop_cr v == v && leb (length v) 65000

pub split_lines-line :
    (l rest : Text)
    → any is_newline l ≡ false
    → split_lines (l ++ b'\n' ∷ rest) ≡ l ∷ split_lines rest
unfolding split_lines any
split_lines-line [] rest h = refl
split_lines-line (c ∷ l) rest h = ground (arith, split_lines-line l rest)

pub drop_cr-cons :
    (c : ℕ) (v : Text) → nat_beq c 13 ≡ false → drop_cr v ≡ v → drop_cr (c ∷ v) ≡ c ∷ v
unfolding drop_cr
drop_cr-cons c [] h k = ground arith
drop_cr-cons c (d ∷ v) h k = ap (λ t. c ∷ t) k

-- A key of the file: no newline, no carriage return, no `=`, and short.
abbrev pub is_key_byte : ℕ → Bool
is_key_byte c = not (nat_beq c 13) && not (is_newline c) && not (nat_beq c b'=')

abbrev pub is_key : Text → Bool
is_key [] = true
is_key (c ∷ k) = is_key_byte c && is_key k

-- A key, the `=` and a field are one line that is read whole.
pub field_line :
    (k v : Text)
    → is_key k ≡ true
    → is_field v ≡ true
    → (any is_newline (k ++ b'=' ∷ v) ≡ false)
      × (drop_cr (k ++ b'=' ∷ v) ≡ k ++ b'=' ∷ v)
      × (length (k ++ b'=' ∷ v) ≡ length k + 1 + length v)
      × (cut (k ++ b'=' ∷ v) ≡ some (k, v))
unfolding any cut
field_line [] v hk hv = ground (arith, drop_cr-cons b'=' v refl, ==_iff (drop_cr v) v)
field_line (c ∷ k) v hk hv =
    let ih = field_line k v (ground arith) hv in
    ground (arith, ih.0, ih.1, ih.2, ih.3, drop_cr-cons c (k ++ b'=' ∷ v))

pub base_name-not_empty : (p : Text) → (base_name p == []) ≡ false
unfolding base_name ◌==◌
base_name-not_empty p = ground arith

last_element-no_slash : (s : Text) → any is_slash (last_element s) ≡ false
unfolding last_element any
last_element-no_slash [] = refl
last_element-no_slash (c ∷ s) = ground (arith, last_element-no_slash s)

no_slash-same : (s : Text) → any is_slash s ≡ false → (strip_slashes s ≡ s) × (last_element s ≡ s)
unfolding strip_slashes last_element any
no_slash-same [] h = (refl, refl)
no_slash-same (c ∷ s) h = ground (arith, no_slash-same s)

base_name-of_name : (s : Text) → any is_slash s ≡ false → (s == []) ≡ false → base_name s ≡ s
unfolding base_name
base_name-of_name s h n = ground (arith, no_slash-same s h)

base_name_slash : base_name (codes "/") ≡ codes "/"
unfolding base_name strip_slashes last_element ◌==◌ any
base_name_slash = refl

base_name_dot : base_name (codes ".") ≡ codes "."
unfolding base_name strip_slashes last_element ◌==◌ any
base_name_dot = refl

base_name_cases :
    (p : Text)
    → ((base_name p ≡ codes "/") ⊎ (base_name p ≡ codes ".")) ⊎ (any is_slash (base_name p) ≡ false)
unfolding base_name
base_name_cases p = ground (arith, last_element-no_slash (strip_slashes p))

-- A base name is its own base name.
pub base_name-base_name : (p : Text) → base_name (base_name p) ≡ base_name p
base_name-base_name p = ground (
  arith,
  base_name_cases p,
  base_name-of_name (base_name p),
  base_name-not_empty p,
  base_name_slash,
  base_name_dot,
)
