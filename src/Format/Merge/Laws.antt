-- ===== src/Format/Merge/Laws.antt =====
-- What a merge of two objects holds under each key.
use rescriptum.Prelude.{
  false, Option, none, some, Str, str_eq, str_eq_iff, str_eq_self, ◌≡◌, refl, ◌∙◌, arith,
  Bool-cases, Option-cases, inl, inr,
}
use mathlib.Core.Path.{subst}
use rescriptum.Json.{Value, Fields, end, field}
use rescriptum.Format.Control.{get}
use rescriptum.Format.Merge.{
  insert_field, set_field, merge_field, merge_json, merge_fields, remove_field,
}

get-insert_field_same :
    (key : Str) (v : Value) (b : Fields)
    → get key b ≡ none
    → get key (insert_field key v b) ≡ some v
unfolding get insert_field
get-insert_field_same key v end h = rw (str_eq_self key) refl
get-insert_field_same key v (field k w rest) h =
    ground (arith, str_eq_self key, get-insert_field_same key v rest)

get-insert_field_other :
    (key other : Str) (v : Value) (b : Fields)
    → str_eq key other ≡ false
    → get other (insert_field key v b) ≡ get other b
unfolding get insert_field
get-insert_field_other key other v end h = rw h refl
get-insert_field_other key other v (field k w rest) h =
    ground (arith, h, get-insert_field_other key other v rest h)

get-set_field_same :
    (key : Str) (v w : Value) (b : Fields)
    → get key b ≡ some w
    → get key (set_field key v b) ≡ some v
unfolding get set_field
get-set_field_same key v w end h = cc
get-set_field_same key v w (field k u rest) h = ground (arith, get-set_field_same key v w rest)

get-set_field_other :
    (key other : Str) (v : Value) (b : Fields)
    → str_eq key other ≡ false
    → get other (set_field key v b) ≡ get other b
unfolding get set_field
get-set_field_other key other v end h = refl
get-set_field_other key other v (field k u rest) h = ground (
  arith,
  h,
  str_eq_iff k key,
  str_eq_iff k other,
  str_eq_iff key other,
  get-set_field_other key other v rest h,
)

-- what stands under a key, of the lower layer's value and the upper one's
abbrev pub merged_value : Option Value → Option Value → Option Value
merged_value lower none = lower
merged_value none (some v) = some v
merged_value (some existing) (some v) = some (merge_json existing v)

-- no key stands twice
abbrev pub Distinct : Fields → Type 0
Distinct end = Unit
Distinct (field k v rest) = (get k rest ≡ none) × Distinct rest

abbrev merge_one : Str → Value → Fields → Fields
merge_one key v b = merge_field key v (λ existing. merge_json existing v) (get key b) b

get-merge_one_same :
    (key : Str) (v : Value) (b : Fields)
    → get key (merge_one key v b) ≡ merged_value (get key b) (some v)
get-merge_one_same key v b = elim (Option-cases (get key b)) [
  | inl absent ↦ rw absent (get-insert_field_same key v b absent)
  | inr (w, present) ↦ rw present (get-set_field_same key (merge_json w v) w b present)
]

get-merge_one_other :
    (key other : Str) (v : Value) (b : Fields)
    → str_eq key other ≡ false
    → get other (merge_one key v b) ≡ get other b
get-merge_one_other key other v b h = elim (Option-cases (get key b)) [
  | inl absent ↦ rw absent (get-insert_field_other key other v b h)
  | inr (w, present) ↦ rw present (get-set_field_other key other (merge_json w v) b h)
]

-- In the merge of two objects, of which the upper one has no key twice, a key that only one layer
-- has keeps its value, and a key that both have holds the merge of the two values.
pub get-merge_fields :
    (key : Str) (b o : Fields)
    → Distinct o
    → get key (merge_fields b o) ≡ merged_value (get key b) (get key o)
unfolding merge_fields get
get-merge_fields key b end h = refl
get-merge_fields key b (field k v rest) (fresh, h) =
    get-merge_fields key (merge_one k v b) rest h ∙ (elim (Bool-cases (str_eq k key)) [
      | inl same ↦
          let e : k ≡ key = (str_eq_iff k key).0 same in
          rw same (
            subst
              (λ x.
                merged_value (get x (merge_one k v b)) (get x rest)
                ≡ merged_value (get x b) (some v))
              e (rw (fresh, get-merge_one_same k v b) refl))
      | inr other ↦ rw (other, get-merge_one_other k key v b other) refl
    ])

get-remove_field :
    (key other : Str) (b : Fields)
    → str_eq key other ≡ false
    → get other (remove_field key b) ≡ get other b
unfolding get remove_field
get-remove_field key other end h = refl
get-remove_field key other (field k v rest) h = ground (
  arith,
  h,
  str_eq_iff k key,
  str_eq_iff k other,
  str_eq_iff key other,
  get-remove_field key other rest h,
)

get-remove_field_same : (key : Str) (b : Fields) → get key (remove_field key b) ≡ none
unfolding get remove_field
get-remove_field_same key end = refl
get-remove_field_same key (field k v rest) = ground (arith, get-remove_field_same key rest)
