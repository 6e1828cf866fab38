-- ===== src/Format/Control.antt =====
-- `Control` and its readers for JSON and for line-oriented documents (src/format/mod.rs).
use rescriptum.Prelude.{
  Bool, true, false, not, ◌&&◌, ◌||◌, List, [], ◌∷◌, ◌++◌, map, Option, none, some, Str, ◌==◌,
  codes, str_eq, if◌then◌else◌, filter, is_empty, is_whitespace, is_some, trim, trim_start,
  strip_prefix, split, split_once, lines, ◌>>=◌,
}
use mathlib.Core.List.{foldl}
use rescriptum.Json.{
  Value, null, bool, number, string, array, object, Items, nil, item, Fields, end, field,
}

-- The map is a list of entries with distinct keys; its order is not observed.
pub record Control : Type 0 where
  pub extends : Option Str
  pub members : List Str
  pub matchers : List (Str × Str)

abbrev pub no_control : Control
no_control = record { extends = none; members = []; matchers = [] }

abbrev is_nil {ℓ} : {A : Type ℓ} → List A → Bool
is_nil [] = true
is_nil (_ ∷ _) = false

unfoldable pub is_empty_control : Control → Bool
is_empty_control c = not (is_some c.extends) && is_nil c.members && is_nil c.matchers

-- `BTreeMap::insert`
abbrev pub insert : Str → Str → List (Str × Str) → List (Str × Str)
insert k v [] = (k, v) ∷ []
insert k v ((j, w) ∷ m) = if str_eq j k then (k, v) ∷ m else (j, w) ∷ insert k v m

-- `trim`, and `None` for what is empty then
abbrev pub non_blank : Str → Option Str
non_blank s = if is_empty (trim s) then none else some (trim s)

unfoldable pub json_scalar : Value → Option Str
json_scalar (string s) = some s
json_scalar (number n) = some n
json_scalar (bool b) = some (if b then codes "true" else codes "false")
json_scalar null = none
json_scalar (array _) = none
json_scalar (object _) = none

unfoldable pub get : Str → Fields → Option Value
get key end = none
get key (field k v rest) = if str_eq k key then some v else get key rest

abbrev json_extends : Option Value → Option Str
json_extends (some (string s)) = non_blank s
json_extends _ = none

abbrev scalars : Items → List Str
scalars nil = []
scalars (item v rest) = elim (json_scalar v) [ none ↦ scalars rest | some s ↦ s ∷ scalars rest ]

abbrev json_members : Option Value → List Str
json_members (some (array items)) = scalars items
json_members _ = []

-- the entries of an object have distinct keys, so collecting them is no insertion
abbrev pairs : Fields → List (Str × Str)
pairs end = []
pairs (field k v rest) = elim (json_scalar v) [ none ↦ pairs rest | some s ↦ (k, s) ∷ pairs rest ]

abbrev json_matchers : Option Value → List (Str × Str)
json_matchers (some (object fields)) = pairs fields
json_matchers _ = []

unfoldable pub control_from_json : Value → Control
unfolding get json_scalar
control_from_json (object fields) = record {
  extends = json_extends (get (codes "extends") fields);
  members = json_members (get (codes "members") fields);
  matchers = json_matchers (get (codes "match") fields);
}
control_from_json _ = no_control

-- the text behind `#` or `//`
abbrev comment_body : Str → Option Str
comment_body s = elim (strip_prefix (codes "#") s) [
  | some body ↦ some body
  | none ↦ strip_prefix (codes "//") s
]

unfoldable pub directive_of : Str → Option Str
directive_of line = do
  body ← comment_body (trim_start line)
  directive ← strip_prefix (codes "answer:") (trim_start body)
  some (trim directive)

abbrev add_members : Control → List Str → Control
add_members control values = record control {
  members = control.members ++ filter (λ v. not (is_empty v)) (map trim values);
}

-- one `key=value` of a `match` directive
abbrev add_pair : Control → Str → Control
add_pair control pair = elim (split_once (λ c. c == b'=') pair) [
  | none ↦ control
  | some (key, value) ↦
      if is_empty key
      then control
      else record control { matchers = insert key value control.matchers }
]

-- the `match verb` on a directive
unfoldable pub apply_directive : Control → Str → Str → Control
apply_directive control verb rest =
    if str_eq verb (codes "extends") && not (is_empty rest)
    then record control { extends = some rest }
    else if str_eq verb (codes "member") || str_eq verb (codes "members")
    then add_members control (split (λ c. c == b',') rest)
    else if str_eq verb (codes "match")
    then foldl add_pair control (filter (λ w. not (is_empty w)) (split is_whitespace rest))
    else control

abbrev apply_line : Control → Str → Control
apply_line control line = elim (directive_of line) [
  | none ↦ control
  | some directive ↦ elim (split_once is_whitespace directive) [
    | none ↦ apply_directive control directive []
    | some (verb, rest) ↦ apply_directive control verb (trim rest)
  ]
]

unfoldable pub control_from_text : Str → Control
unfolding directive_of apply_directive
control_from_text text = foldl apply_line no_control (lines text)
