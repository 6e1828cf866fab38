-- ===== src/Facts/Labels/Laws.antt =====
-- The label store: what `add` changes, and what `matches` decides.
use rescriptum.Prelude.{
  ℕ, Bool, true, ◌||◌, List, [], ◌∷◌, ◌++◌, Str, Bytes, if◌then◌else◌, str_eq, str_eq_iff, any,
  is_empty, to_ascii_lowercase, get_or_else, ◌≡◌, ◌≢◌, refl, arith, inl, inr, Bool-cases,
  is_ascii_alphanumeric, lower,
}
use rescriptum.Normalize.{normalize}
use rescriptum.Facts.Glob.Wild.{Starless}
use rescriptum.Facts.Labels.{Labels, Facts, get, contains_value, push_value, add, values}

lower-ne_star : (c : ℕ) → is_ascii_alphanumeric c ≡ true → lower c ≢ b'*'
lower-ne_star c h = ground arith

-- A normalized text holds no star.
pub normalize-Starless : (s : Bytes) → Starless (normalize s)
unfolding normalize
normalize-Starless [] = tt
normalize-Starless (c ∷ s) = elim (Bool-cases (is_ascii_alphanumeric c)) [
  | inl h ↦ rw h (lower-ne_star c h, normalize-Starless s)
  | inr h ↦ rw h (normalize-Starless s)
]

pub any_same {ℓ} :
    {A : Type ℓ} (f g : A → Bool) (xs : List A) → ((x : A) → f x ≡ g x) → any f xs ≡ any g xs
any_same f g [] h = refl
any_same f g (x ∷ xs) h = ground (arith, h x, any_same f g xs h)

-- the values of a key with one more, unless it is there
abbrev pub with_value : List Str → Str → List Str
with_value vs value = if contains_value vs value then vs else vs ++ value ∷ []

get-push_value :
    (k j v : Str) (m : Labels)
    → get_or_else (get j (push_value k v m)) []
      ≡ (if str_eq k j then with_value (get_or_else (get j m) []) v else get_or_else (get j m) [])
unfolding get push_value
get-push_value k j v [] = ground arith
get-push_value k j v ((i, vs) ∷ m) =
    ground (arith, str_eq_iff k j, str_eq_iff i k, str_eq_iff i j, get-push_value k j v m)

-- `add` appends a value to the list of its key, once, whatever the letter case of either key; an
-- empty key or value is dropped, and no other key is touched.
pub values-add :
    (facts : Facts) (k j v : Str)
    → values (add facts k v) j ≡ (
        if is_empty k || is_empty v
        then values facts j
        else if str_eq (to_ascii_lowercase k) (to_ascii_lowercase j)
        then with_value (values facts j) v
        else values facts j)
unfolding add values
values-add facts k j v = elim (Bool-cases (is_empty k || is_empty v)) [
  | inl h ↦ rw h refl
  | inr h ↦ rw h (get-push_value (to_ascii_lowercase k) (to_ascii_lowercase j) v facts.labels)
]
