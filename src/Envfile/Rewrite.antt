-- ===== src/Envfile/Rewrite.antt =====
-- `rewrite`, the prefixes that it recognises and `render_value` (src/envfile.rs).
use rescriptum.Prelude.{
  Bool, true, false, not, List, [], ◌∷◌, ◌++◌, Option, none, some, Str, ◌==◌, codes, if◌then◌else◌,
  str_eq, any, is_some, is_control, is_whitespace, trim, trim_start, strip_prefix, lines,
  get_or_else,
}
use rescriptum.Prelude.Result.{Result, ok, err}
use rescriptum.Envfile.Parse.{is_valid_key, looks_quoted}

pub data Refusal : Type 0 where
  unusable_key : Str → Refusal
  control_character quoted_value needs_both : Str → Refusal

unfoldable pub render_value : Str → Str → Result Refusal Str
render_value key value =
    if any is_control value
    then err (control_character key)
    else if looks_quoted value
    then err (quoted_value key)
    else if str_eq value (trim value)
    then ok value
    else if any (λ c. c == b'"') value
    then err (needs_both key)
    else ok (b'"' ∷ (value ++ b'"' ∷ []))

-- the white space in front of a line, and what is behind it
abbrev pub indent_of : Str → Str × Str
indent_of [] = ([], [])
indent_of (c ∷ s) = let (a, b) = indent_of s in if is_whitespace c then (c ∷ a, b) else ([], c ∷ s)

-- the name, white space and `=` stand there
abbrev is_assignment : Str → Str → Bool
is_assignment rest key = elim (strip_prefix key rest) [
  | none ↦ false
  | some r ↦ is_some (strip_prefix (codes "=") (trim_start r))
]

abbrev when : Bool → Str → Option Str
when true s = some s
when false s = none

abbrev behind_indent : Str → Str → Str → Option Str
behind_indent indent rest key = elim (strip_prefix (codes "export ") rest) [
  | some r ↦ when (is_assignment (trim_start r) key) (indent ++ codes "export ")
  | none ↦ when (is_assignment rest key) indent
]

unfoldable pub assignment_prefix : Str → Str → Option Str
assignment_prefix line key = let (indent, rest) = indent_of line in behind_indent indent rest key

unfoldable pub commented_prefix : Str → Str → Option Str
unfolding assignment_prefix
commented_prefix line key =
    let (indent, rest) = indent_of line in
    elim (strip_prefix (codes "#") rest) [
      | none ↦ none
      | some r ↦ elim (assignment_prefix (trim_start r) key) [
        | none ↦ none
        | some inside ↦ some (indent ++ inside)
      ]
    ]

-- Replace the first line with a prefix, if there is one.
abbrev pub replace_first : (Str → Option Str) → (Str → Str → Str) → List Str → Option (List Str)
replace_first prefix write [] = none
replace_first prefix write (l ∷ ls) = elim (prefix l) [
  | some p ↦ some (write p l ∷ ls)
  | none ↦ elim (replace_first prefix write ls) [ none ↦ none | some r ↦ some (l ∷ r) ]
]

abbrev setting_line : Str → Str → Str → Str → Str
setting_line key rendered prefix line = prefix ++ (key ++ (b'=' ∷ rendered))

-- the lines in place, and those to append
abbrev pub Draft : Type 0
Draft = List Str × List Str

abbrev set_commented : Str → Str → Draft → Option (List Str) → Draft
set_commented key rendered (ls, appended) (some r) = (r, appended)
set_commented key rendered (ls, appended) none = (ls, appended ++ (key ++ (b'=' ∷ rendered)) ∷ [])

abbrev set_live : Str → Str → Draft → Option (List Str) → Draft
set_live key rendered (ls, appended) (some r) = (r, appended)
set_live key rendered (ls, appended) none =
    set_commented key rendered (ls, appended)
      (replace_first (λ l. commented_prefix l key) (setting_line key rendered) ls)

unfoldable pub set_key : Str → Str → Draft → Draft
unfolding assignment_prefix commented_prefix
set_key key rendered (ls, appended) =
    set_live key rendered (ls, appended)
      (replace_first (λ l. assignment_prefix l key) (setting_line key rendered) ls)

abbrev comment_out : Str → Str → Str
comment_out prefix line = let (indent, rest) = indent_of line in indent ++ (codes "# " ++ rest)

unfoldable pub unset_key : Str → Draft → Draft
unfolding assignment_prefix
unset_key key (ls, appended) =
    (get_or_else (replace_first (λ l. assignment_prefix l key) comment_out ls) ls, appended)

unfoldable pub apply_changes : List (Str × Option Str) → Draft → Result Refusal Draft
unfolding is_valid_key render_value set_key unset_key
apply_changes [] draft = ok draft
apply_changes ((key, change) ∷ rest) draft =
    if not (is_valid_key key) then err (unusable_key key) else elim change [
      | none ↦ apply_changes rest (unset_key key draft)
      | some value ↦ elim (render_value key value) [
        | err e ↦ err e
        | ok rendered ↦ apply_changes rest (set_key key rendered draft)
      ]
    ]

abbrev pub unlines : List Str → Str
unlines [] = []
unlines (l ∷ ls) = l ++ (10 ∷ unlines ls)

abbrev finish : Result Refusal Draft → Result Refusal Str
finish (err e) = err e
finish (ok (ls, appended)) = ok (unlines (ls ++ appended))

unfoldable pub rewrite : Str → List (Str × Option Str) → Result Refusal Str
unfolding apply_changes
rewrite text changes = finish (apply_changes changes (lines text, []))
