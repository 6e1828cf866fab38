-- ===== src/Facts/Labels.antt =====
-- The label store of src/facts.rs: `Facts`, `add`, `values` and `matches`.
pub mod Laws
pub mod Accepts
use rescriptum.Prelude.{
  Bool, true, false, ◌||◌, List, [], ◌∷◌, ◌++◌, Option, none, some, Str, if◌then◌else◌, str_eq, any,
  is_empty, to_ascii_lowercase, get_or_else,
}
use rescriptum.Normalize.{normalize}
use rescriptum.Facts.Glob.{glob}
use rescriptum.Facts.Query.{normalize_pattern}

-- The map is a list of entries with distinct keys; its order is not observed.
abbrev pub Labels : Type 0
Labels = List (Str × List Str)

pub record Facts : Type 0 where
  pub labels : Labels
  pub haystack : Str

abbrev pub empty : Facts
empty = record { labels = []; haystack = [] }

unfoldable pub get : Str → Labels → Option (List Str)
get key [] = none
get key ((k, vs) ∷ m) = if str_eq k key then some vs else get key m

abbrev pub contains_value : List Str → Str → Bool
contains_value vs value = any (λ v. str_eq v value) vs

-- `entry(key).or_default()`, and the push unless the value is there
unfoldable pub push_value : Str → Str → Labels → Labels
push_value key value [] = (key, value ∷ []) ∷ []
push_value key value ((k, vs) ∷ m) =
    if str_eq k key
    then (k, if contains_value vs value then vs else vs ++ value ∷ []) ∷ m
    else (k, vs) ∷ push_value key value m

unfoldable pub add : Facts → Str → Str → Facts
unfolding push_value
add facts key value =
    if is_empty key || is_empty value
    then facts
    else record facts { labels = push_value (to_ascii_lowercase key) value facts.labels }

unfoldable pub values : Facts → Str → List Str
unfolding get
values facts key = get_or_else (get (to_ascii_lowercase key) facts.labels) []

unfoldable pub matches : Facts → Str → Str → Bool
unfolding values
matches facts key pattern =
    let wanted = normalize_pattern pattern in
    any (λ v. glob wanted (normalize v)) (values facts key)
