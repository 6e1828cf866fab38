-- ===== src/Format/Merge.antt =====
-- `merge_json` and the removal of control keys (src/format/mod.rs). An object's entries are sorted
-- by key, as the map of `serde_json` keeps them.
pub mod Laws
use rescriptum.Prelude.{
  Bool, true, false, List, [], ◌∷◌, Option, none, some, Str, codes, str_eq, str_ltb, if◌then◌else◌,
}
use rescriptum.Json.{
  Value, null, bool, number, string, array, object, Items, nil, item, Fields, end, field,
}
use rescriptum.Format.Control.{get}

-- `insert` of a key that is not there
unfoldable pub insert_field : Str → Value → Fields → Fields
insert_field key v end = field key v end
insert_field key v (field k w rest) =
    if str_ltb key k then field key v (field k w rest) else field k w (insert_field key v rest)

-- the value behind `get_mut`, written back
unfoldable pub set_field : Str → Value → Fields → Fields
set_field key v end = end
set_field key v (field k w rest) =
    if str_eq k key then field k v rest else field k w (set_field key v rest)

-- the two arms of `match b.get_mut(key)`; `merged` is what the first one writes
abbrev pub merge_field : Str → Value → (Value → Value) → Option Value → Fields → Fields
merge_field key v merged none b = insert_field key v b
merge_field key v merged (some existing) b = set_field key (merged existing) b

unfoldable mutual
  unfolding insert_field set_field get

  pub merge_json : Value → Value → Value
  merge_json (object b) (object o) = object (merge_fields b o)
  merge_json base (object o) = object o
  merge_json base null = null
  merge_json base (bool x) = bool x
  merge_json base (number n) = number n
  merge_json base (string s) = string s
  merge_json base (array items) = array items

  pub merge_fields : Fields → Fields → Fields
  merge_fields b end = b
  merge_fields b (field key v rest) =
      merge_fields (merge_field key v (λ existing. merge_json existing v) (get key b) b) rest

-- `map.remove(key)`
unfoldable pub remove_field : Str → Fields → Fields
remove_field key end = end
remove_field key (field k v rest) =
    if str_eq k key then remove_field key rest else field k v (remove_field key rest)

unfoldable pub strip_control_json : Value → Value
unfolding remove_field
strip_control_json (object fields) = object (
    remove_field (codes "match")
      (remove_field (codes "members") (remove_field (codes "extends") fields)))
strip_control_json v = v
