-- ===== src/Prelude/Index.antt =====
-- Lists by their elements: two lists are the same when they have the same element at every index.
use Prim.Native.Nat.{ℕ, zero, suc, ◌+◌, ◌-◌, ◌≤◌, ◌<◌}
use mathlib.Core.Path.{◌≡◌, refl, sym, ap, ◌∙◌}
use mathlib.Core.List.{List, [], ◌∷◌, ◌++◌}
use mathlib.Core.Option.{none, some}
use native.Mathlib.Omega.{arith}
use rescriptum.Prelude.Lists.{length, get_elem?, take, drop}

module _ {ℓ} {A : Type ℓ} where
  pub get_elem-ext : (xs ys : List A) → ((i : ℕ) → get_elem? xs i ≡ get_elem? ys i) → xs ≡ ys
  get_elem-ext [] [] h = refl
  get_elem-ext [] (y ∷ ys) h = let e : none ≡ some y = h 0 in cc
  get_elem-ext (x ∷ xs) [] h = let e : some x ≡ none = h 0 in cc
  get_elem-ext (x ∷ xs) (y ∷ ys) h =
      let same : some x ≡ some y = h 0 in
      let first : x ≡ y = cc in
      ap (λ z. z ∷ xs) first ∙ ap (◌∷◌ y) (get_elem-ext xs ys (λ i. h (suc i)))

  pub get_elem-beyond : (xs : List A) (i : ℕ) → length xs ≤ i → get_elem? xs i ≡ none
  get_elem-beyond [] i h = refl
  get_elem-beyond (x ∷ xs) zero h = absurd (omega arith)
  get_elem-beyond (x ∷ xs) (suc i) h = get_elem-beyond xs i (omega arith)

  pub get_elem-append_left :
      (xs ys : List A) (i : ℕ) → i < length xs → get_elem? (xs ++ ys) i ≡ get_elem? xs i
  get_elem-append_left [] ys i h = absurd (omega arith)
  get_elem-append_left (x ∷ xs) ys zero h = refl
  get_elem-append_left (x ∷ xs) ys (suc i) h = get_elem-append_left xs ys i (omega arith)

  pub get_elem-append_right :
      (xs ys : List A) (i : ℕ)
      → length xs ≤ i
      → get_elem? (xs ++ ys) i ≡ get_elem? ys (i - length xs)
  get_elem-append_right [] ys i h = ap (get_elem? ys) (omega arith)
  get_elem-append_right (x ∷ xs) ys zero h = absurd (omega arith)
  get_elem-append_right (x ∷ xs) ys (suc i) h =
      get_elem-append_right xs ys i (omega arith) ∙ ap (get_elem? ys) (omega arith)

  pub get_elem-take_in :
      (n : ℕ) (xs : List A) (i : ℕ) → i < n → get_elem? (take n xs) i ≡ get_elem? xs i
  get_elem-take_in zero xs i h = absurd (omega arith)
  get_elem-take_in (suc n) [] i h = refl
  get_elem-take_in (suc n) (x ∷ xs) zero h = refl
  get_elem-take_in (suc n) (x ∷ xs) (suc i) h = get_elem-take_in n xs i (omega arith)

  pub get_elem-take_out : (n : ℕ) (xs : List A) (i : ℕ) → n ≤ i → get_elem? (take n xs) i ≡ none
  get_elem-take_out zero xs i h = refl
  get_elem-take_out (suc n) [] i h = refl
  get_elem-take_out (suc n) (x ∷ xs) zero h = absurd (omega arith)
  get_elem-take_out (suc n) (x ∷ xs) (suc i) h = get_elem-take_out n xs i (omega arith)

  pub get_elem-drop : (n : ℕ) (xs : List A) (i : ℕ) → get_elem? (drop n xs) i ≡ get_elem? xs (n + i)
  get_elem-drop zero xs i = ap (get_elem? xs) (omega arith)
  get_elem-drop (suc n) [] i = refl
  get_elem-drop (suc n) (x ∷ xs) i =
      let e : suc n + i ≡ suc (n + i) = omega arith in
      get_elem-drop n xs i ∙ sym (ap (get_elem? (x ∷ xs)) e)
