-- ===== src/Admin/Reply.antt =====
-- `json_string` and `json_list` of src/admin.rs.
use rescriptum.Prelude.{
  ℕ, ◌+◌, ◌-◌, ◌/◌, ◌%◌, List, [], ◌∷◌, ◌++◌, map, Str, ◌==◌, codes, ltb, if◌then◌else◌, join,
}

abbrev hex_char : ℕ → ℕ
hex_char n = if ltb n 10 then b'0' + n else b'a' + (n - 10)

-- what one character is written as
unfoldable pub escape_char : ℕ → Str
escape_char c =
    if c == b'"'
    then b'\\' ∷ b'"' ∷ []
    else if c == b'\\'
    then b'\\' ∷ b'\\' ∷ []
    else if c == 10
    then b'\\' ∷ b'n' ∷ []
    else if c == 13
    then b'\\' ∷ b'r' ∷ []
    else if c == 9
    then b'\\' ∷ b't' ∷ []
    else if ltb c 0x20
    then codes "\\u00" ++ (hex_char (c / 16) ∷ hex_char (c % 16) ∷ [])
    else c ∷ []

unfoldable pub escaped : Str → Str
unfolding escape_char
escaped [] = []
escaped (c ∷ s) = escape_char c ++ escaped s

unfoldable pub json_string : Str → Str
unfolding escaped
json_string s = b'"' ∷ (escaped s ++ b'"' ∷ [])

unfoldable pub json_list : Str → List Str → Str
unfolding json_string
json_list key items =
    codes "{"
    ++ (json_string key ++ (codes ":[" ++ (join (codes ",") (map json_string items) ++ codes "]}")))
