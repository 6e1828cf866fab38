-- ===== src/Facts/Request.antt =====
-- How src/facts.rs fills a `Facts` from a request, and the walk over a JSON body.
use rescriptum.Prelude.{
  ℕ, ◌+◌, not, ◌&&◌, List, [], ◌∷◌, ◌++◌, Option, none, some, Str, Bytes, ◌==◌, if◌then◌else◌, find,
  filter, is_empty, is_some, str_eq, split, trim_matches, decimal, parse_unsigned, max_u64, codes,
  get_or_else, ◌>>=◌, last_or,
}
use mathlib.Core.List.{reverse, foldl}
use rescriptum.Prelude.Utf8.{encode}
use rescriptum.Json.{
  Value, null, bool, number, string, array, object, Items, nil, item, Fields, end, field,
}
use rescriptum.Normalize.{normalize}
use rescriptum.Facts.Query.{parse_query}
use rescriptum.Facts.Labels.{Facts, empty, add}

abbrev dot : Str
dot = b'.' ∷ []

-- `path.push('.')` unless the path is empty, then the next name
abbrev pub extend : Str → Str → Str
extend path name = (if is_empty path then path else path ++ dot) ++ name

-- The leaf name is the last path segment that is not an array index (a `usize` of 64 bits).
unfoldable pub leaf_name : Str → Str
leaf_name path =
    get_or_else
      (find (λ segment. not (is_some (parse_unsigned max_u64 segment)))
        (reverse (split (λ c. c == b'.') path)))
      []

abbrev add_scalar : Str → Str → Facts → Facts
add_scalar path text facts =
    let leaf = leaf_name path in
    let full = add facts path text in
    if not (is_empty leaf) && not (str_eq leaf path) then add full leaf text else full

unfoldable mutual
  unfolding leaf_name

  pub flatten : Value → Str → Facts → Facts
  flatten null path facts = facts
  flatten (bool b) path facts = add_scalar path (if b then codes "true" else codes "false") facts
  flatten (number n) path facts = add_scalar path n facts
  flatten (string s) path facts = add_scalar path s facts
  flatten (array items) path facts = flatten_items items 0 path facts
  flatten (object fields) path facts = flatten_fields fields path facts

  pub flatten_items : Items → ℕ → Str → Facts → Facts
  flatten_items nil index path facts = facts
  flatten_items (item child rest) index path facts =
      flatten_items rest (index + 1) path (flatten child (extend path (decimal index)) facts)

  pub flatten_fields : Fields → Str → Facts → Facts
  flatten_fields end path facts = facts
  flatten_fields (field key child rest) path facts =
      flatten_fields rest path (flatten child (extend path key) facts)

abbrev push_haystack : Facts → Str → Facts
push_haystack facts text = record facts { haystack = facts.haystack ++ normalize (encode text) }

-- one segment of the path
abbrev add_segment : Facts → Str → Facts
add_segment facts segment = push_haystack (add facts (codes "segment") segment) segment

-- `if let Some(last) = segments.last()`
abbrev add_file : Facts → List Str → Facts
add_file facts [] = facts
add_file facts (s ∷ rest) = add facts (codes "file") (last_or s rest)

unfoldable pub add_path : Facts → Str → Facts
add_path facts path =
    let trimmed = trim_matches (λ c. c == b'/') path in
    let segments = filter (λ s. not (is_empty s)) (split (λ c. c == b'/') trimmed) in
    if is_empty trimmed
    then facts
    else foldl add_segment (add_file (add facts (codes "path") trimmed) segments) segments

-- the haystack takes the value before the label does
abbrev add_pair : Facts → Str × Str → Facts
add_pair facts (key, value) = add (push_haystack facts value) key value

unfoldable pub add_query : Facts → Str → Option Facts
add_query facts query = do pairs ← parse_query query; some (foldl add_pair facts pairs)

-- `if let Some(path) = path`, `if let Some(query) = query`
abbrev with_path : Option Str → Facts → Facts
with_path none facts = facts
with_path (some path) facts = add_path facts path

abbrev with_query : Option Str → Facts → Option Facts
with_query none facts = some facts
with_query (some query) facts = add_query facts query

abbrev add_body : Option Value → Facts → Facts
add_body none facts = facts
add_body (some value) facts = flatten value [] facts

-- `from_slice` is `serde_json::from_slice`; the result is `none` where decoding the query panics.
module _ (from_slice : Bytes → Option Value) where
  unfoldable pub from_request : Option Str → Option Str → Bytes → Option Facts
  unfolding add_path add_query
  from_request path query body = do
    let bare = record empty { haystack = normalize body }
    facts ← with_query query (with_path path bare)
    some (add_body (from_slice body) facts)

  -- `Facts::new`
  unfoldable pub new : Option Str → Bytes → Option Facts
  unfolding from_request
  new query body = from_request none query body

unfoldable pub from_identity : Str → Facts
from_identity id = record empty { haystack = normalize (encode id) }

-- labels alone: the label first, then the haystack
abbrev add_label : Facts → Str × Str → Facts
add_label facts (k, v) = push_haystack (add facts k v) v

unfoldable pub from_labels : List (Str × Str) → Facts
from_labels pairs = foldl add_label empty pairs
