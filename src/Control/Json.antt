-- ===== src/Control/Json.antt =====
-- encoding/json on what core/control signs: objects of strings, lists of strings and integers, with
-- the escapes that json.Marshal writes.
use mazzy_vpn.Base.{
  ℕ, ◌+◌, ◌/◌, ◌%◌, ◌||◌, List, [], ◌∷◌, ◌++◌, ltb, nat_beq, if◌then◌else◌, Text, codes,
}

-- A lower-case hexadecimal digit.
pub hex : ℕ → ℕ
hex n = if ltb n 10 then b'0' + n else b'a' + n % 10

pub unicode_escape : ℕ → Text
unfolding hex
unicode_escape c =
    b'\\' ∷ b'u' ∷ hex (c / 4096 % 16) ∷ hex (c / 256 % 16) ∷ hex (c / 16 % 16) ∷ hex (c % 16) ∷ []

-- Control characters, the characters <, > and &, and the separators U+2028 and U+2029 are escaped.
pub escape : ℕ → Text
unfolding unicode_escape
escape c =
    if nat_beq c 34 || nat_beq c 92
    then 92 ∷ c ∷ []
    else if nat_beq c 8
    then 92 ∷ b'b' ∷ []
    else if nat_beq c 12
    then 92 ∷ b'f' ∷ []
    else if nat_beq c 10
    then 92 ∷ b'n' ∷ []
    else if nat_beq c 13
    then 92 ∷ b'r' ∷ []
    else if nat_beq c 9
    then 92 ∷ b't' ∷ []
    else if ltb c 32
        || nat_beq c b'<'
        || nat_beq c b'>'
        || nat_beq c b'&'
        || nat_beq c 0x2028
        || nat_beq c 0x2029
    then unicode_escape c
    else c ∷ []

escape_all : Text → Text
unfolding escape
escape_all [] = []
escape_all (c ∷ s) = escape c ++ escape_all s

unfoldable pub json_string : Text → Text
unfolding escape_all
json_string s = 34 ∷ escape_all s ++ 34 ∷ []

elements : List Text → Text
unfolding json_string
elements [] = []
elements (x ∷ []) = json_string x
elements (x ∷ y ∷ ys) = json_string x ++ b',' ∷ elements (y ∷ ys)

-- A nil slice is `null`; the program never marshals an empty slice that is not nil.
unfoldable pub json_strings : List Text → Text
unfolding elements
json_strings [] = codes "null"
json_strings (x ∷ xs) = b'[' ∷ elements (x ∷ xs) ++ b']' ∷ []

-- The members of an object, each name with its encoded value.
members : List (Text × Text) → Text
unfolding json_string
members [] = []
members ((k, v) ∷ []) = json_string k ++ b':' ∷ v
members ((k, v) ∷ m ∷ ms) = json_string k ++ b':' ∷ v ++ b',' ∷ members (m ∷ ms)

unfoldable pub json_object : List (Text × Text) → Text
unfolding members
json_object ms = b'{' ∷ members ms ++ b'}' ∷ []
