-- ===== src/Envfile/Parse.antt =====
-- `parse`, `unquote` and `is_valid_key` of src/envfile.rs. An error carries its line and its kind.
use rescriptum.Prelude.{
  ℕ, ◌+◌, Bool, true, false, not, ◌&&◌, ◌||◌, List, [], ◌∷◌, ◌++◌, Option, none, some, Str, ◌==◌,
  codes, if◌then◌else◌, str_eq, is_some, all, is_ascii_alphabetic, is_ascii_alphanumeric, trim,
  trim_start, strip_prefix, split_once, lines, last_or,
}
use rescriptum.Prelude.Result.{Result, ok, err, ◌>>=◌}

pub data Fault : Type 0 where
  no_assignment unusable_name set_twice : Str → Fault

pub record ParseError : Type 0 where
  pub line : ℕ
  pub fault : Fault

abbrev pub Vars : Type 0
Vars = List (Str × Str)

unfoldable pub get : Str → Vars → Option Str
get key [] = none
get key ((k, v) ∷ m) = if str_eq k key then some v else get key m

unfoldable pub is_valid_key : Str → Bool
is_valid_key [] = false
is_valid_key (c ∷ s) =
    (is_ascii_alphabetic c || c == b'_') && all (λ d. is_ascii_alphanumeric d || d == b'_') s

abbrev pub is_quote : ℕ → Bool
is_quote c = c == b'"' || c == b'\''

-- all but the last character
abbrev pub init : Str → Str
init [] = []
init (c ∷ []) = []
init (c ∷ d ∷ s) = c ∷ init (d ∷ s)

-- a value of at least two bytes, between two equal quotes
abbrev pub looks_quoted : Str → Bool
looks_quoted [] = false
looks_quoted (_ ∷ []) = false
looks_quoted (c ∷ d ∷ s) = is_quote c && c == last_or d s

abbrev pub inner : Str → Str
inner [] = []
inner (_ ∷ s) = init s

unfoldable pub unquote : Str → Str
unquote value = if looks_quoted value then inner value else value

-- `strip_prefix("export ").map_or(line, trim_start)`
abbrev pub without_export : Str → Str
without_export line = elim (strip_prefix (codes "export ") line) [
  | none ↦ line
  | some rest ↦ trim_start rest
]

-- one line that is neither blank nor a comment
abbrev pub assign : ℕ → Vars → Str → Option (Str × Str) → Result ParseError Vars
assign n vars line none = err (record { line = n + 1; fault = no_assignment line })
assign n vars line (some (name, value)) =
    let key = trim name in
    if not (is_valid_key key)
    then err (record { line = n + 1; fault = unusable_name key })
    else if is_some (get key vars)
    then err (record { line = n + 1; fault = set_twice key })
    else ok (vars ++ (key, unquote (trim value)) ∷ [])

abbrev pub is_comment : Str → Bool
is_comment [] = true
is_comment (c ∷ _) = c == b'#'

unfoldable pub parse_line : ℕ → Vars → Str → Result ParseError Vars
unfolding get is_valid_key unquote
parse_line n vars raw =
    let line = trim raw in
    let rest = without_export line in
    if is_comment line then ok vars else assign n vars rest (split_once (λ c. c == b'=') rest)

unfoldable pub parse_lines : ℕ → Vars → List Str → Result ParseError Vars
unfolding parse_line
parse_lines n vars [] = ok vars
parse_lines n vars (l ∷ ls) = do next ← parse_line n vars l; parse_lines (n + 1) next ls

unfoldable pub parse : Str → Result ParseError Vars
unfolding parse_lines
parse text = parse_lines 0 [] (lines text)
