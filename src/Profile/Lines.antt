-- ===== src/Profile/Lines.antt =====
-- Texts as lines: what core/profile/uapi.go writes line by line is read line by line.
use mazzy_vpn.Base.{
  ◌≡◌, refl, ◌∙◌, sym, ap, false, List, [], ◌∷◌, ◌++◌, Text, any, any-append, All, All-append,
  append_assoc,
}
use mazzy_vpn.Intent.{split_lines}
use mazzy_vpn.Intent.Lines.{is_newline, split_lines-line}
use mazzy_vpn.Profile.Uapi.{line}

-- No newline stands in the text.
abbrev pub IsClean : Text → Type 0
IsClean t = any is_newline t ≡ false

abbrev pub joined : List Text → Text
joined [] = []
joined (l ∷ ls) = l ++ b'\n' ∷ joined ls

split_lines-joined : (ls : List Text) → All IsClean ls → split_lines (joined ls) ≡ ls
unfolding split_lines
split_lines-joined [] h = refl
split_lines-joined (l ∷ ls) h =
    split_lines-line l (joined ls) h.0 ∙ ap (λ r. l ∷ r) (split_lines-joined ls h.1)

-- The text is that of the lines, each of them clean.
unfoldable pub Renders : List Text → Text → Type 0
Renders ls t = (t ≡ joined ls) × All IsClean ls

joined-append : (xs ys : List Text) → joined (xs ++ ys) ≡ joined xs ++ joined ys
joined-append [] ys = refl
joined-append (x ∷ xs) ys =
    ap (λ r. x ++ b'\n' ∷ r) (joined-append xs ys)
    ∙ sym (append_assoc x (b'\n' ∷ joined xs) (joined ys))

pub none-Renders : Renders [] []
unfolding Renders
none-Renders = (refl, tt)

pub split_lines-Renders : (ls : List Text) (t : Text) → Renders ls t → split_lines t ≡ ls
unfolding Renders
split_lines-Renders ls t h = ap split_lines h.0 ∙ split_lines-joined ls h.1

pub Renders-append :
    (xs ys : List Text) (s t : Text) → Renders xs s → Renders ys t → Renders (xs ++ ys) (s ++ t)
unfolding Renders
Renders-append xs ys s t h k =
    (rw (h.0, k.0) (sym (joined-append xs ys)), All-append IsClean xs ys h.1 k.1)

abbrev pub setting : Text → Text → Text
setting key v = key ++ b'=' ∷ v

pub setting-IsClean : (key v : Text) → IsClean key → IsClean v → IsClean (setting key v)
unfolding any
setting-IsClean key v h k = any-append is_newline key (b'=' ∷ v) ∙ rw (h, k) refl

pub line-Renders :
    (key v : Text) → IsClean key → IsClean v → Renders (setting key v ∷ []) (line key v)
unfolding line Renders
line-Renders key v h k = (refl, (setting-IsClean key v h k, tt))
