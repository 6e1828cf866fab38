-- ===== src/Format/Expand.antt =====
-- `expand` of src/format/mod.rs, and its walk over the strings of a JSON document.
pub mod Template
pub mod Braces
pub mod Pieces
use rescriptum.Prelude.{
  ℕ, zero, suc, ◌+◌, Bool, not, ◌||◌, [], ◌++◌, Option, none, some, Str, ◌==◌, codes, if◌then◌else◌,
  all, any, is_empty, is_control, is_ascii_alphanumeric, contains, split_at, trim, length,
}
use rescriptum.Prelude.Result.{Result, ok, err, ◌>>=◌}
use rescriptum.Json.{
  Value, null, bool, number, string, array, object, Items, nil, item, Fields, end, field,
}

-- the errors, in the order of the tests; `stuck` stands for a loop whose fuel ran out
pub data Failure : Type 0 where
  unclosed empty_key stuck : Failure
  bad_key missing unsafe_value : Str → Failure

abbrev pub is_key_char : ℕ → Bool
is_key_char c = is_ascii_alphanumeric c || c == b'-' || c == b'_' || c == b'.'

-- the tests on a key and on the value that it stands for
unfoldable pub value_of : (Str → Option Str) → Str → Result Failure Str
value_of lookup key =
    if is_empty key
    then err empty_key
    else if not (all is_key_char key)
    then err (bad_key key)
    else elim (lookup key) [
      | none ↦ err (missing key)
      | some value ↦ if any is_control value then err (unsafe_value key) else ok value
    ]

-- the loop on what is left of the text
unfoldable pub expand_loop : ℕ → (Str → Option Str) → Str → Str → Result Failure Str
unfolding value_of
expand_loop zero lookup out rest = err stuck
expand_loop (suc fuel) lookup out rest = elim (split_at (codes "{{") rest) [
  | none ↦ ok (out ++ rest)
  | some (before, after) ↦ elim (split_at (codes "}}") after) [
    | none ↦ err unclosed
    | some (inside, behind) ↦ do
      value ← value_of lookup (trim inside)
      expand_loop fuel lookup (out ++ before ++ value) behind
  ]
]

unfoldable pub expand : (Str → Option Str) → Str → Result Failure Str
unfolding expand_loop
expand lookup text =
    if not (contains text (codes "{{"))
    then ok text
    else expand_loop (length text + 1) lookup [] text

unfoldable mutual
  unfolding expand

  pub substitute_json : (Str → Option Str) → Value → Result Failure Value
  substitute_json lookup null = ok null
  substitute_json lookup (bool b) = ok (bool b)
  substitute_json lookup (number n) = ok (number n)
  substitute_json lookup (string s) = do expanded ← expand lookup s; ok (string expanded)
  substitute_json lookup (array items) = do done ← substitute_items lookup items; ok (array done)
  substitute_json lookup (object fields) = do
    done ← substitute_fields lookup fields
    ok (object done)

  pub substitute_items : (Str → Option Str) → Items → Result Failure Items
  substitute_items lookup nil = ok nil
  substitute_items lookup (item v rest) = do
    first ← substitute_json lookup v
    others ← substitute_items lookup rest
    ok (item first others)

  pub substitute_fields : (Str → Option Str) → Fields → Result Failure Fields
  substitute_fields lookup end = ok end
  substitute_fields lookup (field k v rest) = do
    first ← substitute_json lookup v
    others ← substitute_fields lookup rest
    ok (field k first others)
