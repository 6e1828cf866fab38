-- ===== src/Store/File/Sorted.antt =====
-- Sorting by insertion (`sort_by` of src/store/file.rs and src/select.rs): it is in order, and it
-- commutes with a filter and with a map that leaves the order alone.
use rescriptum.Prelude.{
  Bool, true, false, ◌||◌, List, [], ◌∷◌, map, filter, any, ◌≡◌, refl, sym, ap, ◌∙◌, arith, All,
  Bool-cases, inl, inr,
}
use rescriptum.Select.Build.Groups.{place, sort_by}

module _ {T : Type 0} (lt : T → T → Bool) where
  abbrev Sorted : List T → Type 0
  Sorted [] = Unit
  Sorted (x ∷ xs) = All (λ y. lt y x ≡ false) xs × Sorted xs

  All-place : (P : T → Type 0) (x : T) (xs : List T) → P x → All P xs → All P (place lt x xs)
  All-place P x [] p ps = (p, tt)
  All-place P x (y ∷ ys) p ps = elim (Bool-cases (lt y x)) [
    | inl before ↦ rw before (ps.0, All-place P x ys p ps.1)
    | inr not_before ↦ rw not_before (p, ps)
  ]

  module _ (asym : (x y : T) → lt x y ≡ true → lt y x ≡ false)
      (negative : (x y z : T) → lt x y ≡ false → lt y z ≡ false → lt x z ≡ false) where
    below :
        (x y : T) (ys : List T)
        → lt y x ≡ false
        → All (λ z. lt z y ≡ false) ys
        → All (λ z. lt z x ≡ false) ys
    below x y [] h ps = tt
    below x y (z ∷ ys) h ps = (negative z y x ps.0 h, below x y ys h ps.1)

    place-Sorted : (x : T) (xs : List T) → Sorted xs → Sorted (place lt x xs)
    place-Sorted x [] s = (tt, tt)
    place-Sorted x (y ∷ ys) s = elim (Bool-cases (lt y x)) [
      | inl before ↦ rw before (All-place _ x ys (asym y x before) s.0, place-Sorted x ys s.1)
      | inr not_before ↦ rw not_before ((not_before, below x y ys not_before s.0), s)
    ]

    sort_by-Sorted : (xs : List T) → Sorted (sort_by lt xs)
    sort_by-Sorted [] = tt
    sort_by-Sorted (x ∷ xs) = place-Sorted x (sort_by lt xs) (sort_by-Sorted xs)

    place_first : (x : T) (xs : List T) → All (λ y. lt y x ≡ false) xs → place lt x xs ≡ x ∷ xs
    place_first x [] ps = refl
    place_first x (y ∷ ys) ps = rw ps.0 refl

    All-filter : (P : T → Type 0) (p : T → Bool) (xs : List T) → All P xs → All P (filter p xs)
    All-filter P p [] ps = tt
    All-filter P p (x ∷ xs) ps = elim (Bool-cases (p x)) [
      | inl kept ↦ rw kept (ps.0, All-filter P p xs ps.1)
      | inr dropped ↦ rw dropped (All-filter P p xs ps.1)
    ]

    filter-place_out :
        (p : T → Bool) (x : T) (xs : List T) → p x ≡ false → filter p (place lt x xs) ≡ filter p xs
    filter-place_out p x [] h = rw h refl
    filter-place_out p x (y ∷ ys) h = elim (Bool-cases (lt y x)) [
      | inr not_before ↦ rw (not_before, h) refl
      | inl before ↦ elim (Bool-cases (p y)) [
        | inl kept ↦ rw (before, kept) (ap (λ zs. y ∷ zs) (filter-place_out p x ys h))
        | inr dropped ↦ rw (before, dropped) (filter-place_out p x ys h)
      ]
    ]

    filter-place_in :
        (p : T → Bool) (x : T) (xs : List T)
        → p x ≡ true
        → Sorted xs
        → filter p (place lt x xs) ≡ place lt x (filter p xs)
    filter-place_in p x [] h s = rw h refl
    filter-place_in p x (y ∷ ys) h s = elim (Bool-cases (lt y x)) [
      | inl before ↦ elim (Bool-cases (p y)) [
        | inl kept ↦
            rw (before, kept) (rw before (ap (λ zs. y ∷ zs) (filter-place_in p x ys h s.1)))
        | inr dropped ↦ rw (before, dropped) (filter-place_in p x ys h s.1)
      ]
      | inr not_before ↦
          let all_behind : All (λ z. lt z x ≡ false) (filter p (y ∷ ys)) =
            All-filter _ p (y ∷ ys) (not_before, below x y ys not_before s.0) in
          rw (not_before, h) (sym (place_first x (filter p (y ∷ ys)) all_behind))
    ]

    pub filter-sort_by :
        (p : T → Bool) (xs : List T) → filter p (sort_by lt xs) ≡ sort_by lt (filter p xs)
    filter-sort_by p [] = refl
    filter-sort_by p (x ∷ xs) = elim (Bool-cases (p x)) [
      | inl kept ↦ rw kept (
          filter-place_in p x (sort_by lt xs) kept (sort_by-Sorted xs)
          ∙ ap (place lt x) (filter-sort_by p xs))
      | inr dropped ↦
          rw dropped (filter-place_out p x (sort_by lt xs) dropped ∙ filter-sort_by p xs)
    ]

  any-place : (p : T → Bool) (x : T) (xs : List T) → any p (place lt x xs) ≡ (p x || any p xs)
  any-place p x [] = refl
  any-place p x (y ∷ ys) = elim (Bool-cases (lt y x)) [
    | inr not_before ↦ rw not_before refl
    | inl before ↦ rw before (ground (arith, any-place p x ys))
  ]

  pub any-sort_by : (p : T → Bool) (xs : List T) → any p (sort_by lt xs) ≡ any p xs
  any-sort_by p [] = refl
  any-sort_by p (x ∷ xs) = any-place p x (sort_by lt xs) ∙ ap (λ b. p x || b) (any-sort_by p xs)

  map-place :
      (f : T → T) (keeps : (a b : T) → lt (f a) (f b) ≡ lt a b) (x : T) (xs : List T)
      → map f (place lt x xs) ≡ place lt (f x) (map f xs)
  map-place f keeps x [] = refl
  map-place f keeps x (y ∷ ys) = elim (Bool-cases (lt y x)) [
    | inl before ↦ rw (before, keeps y x ∙ before) (ap (λ zs. f y ∷ zs) (map-place f keeps x ys))
    | inr not_before ↦ rw (not_before, keeps y x ∙ not_before) refl
  ]

  pub map-sort_by :
      (f : T → T) (keeps : (a b : T) → lt (f a) (f b) ≡ lt a b) (xs : List T)
      → map f (sort_by lt xs) ≡ sort_by lt (map f xs)
  map-sort_by f keeps [] = refl
  map-sort_by f keeps (x ∷ xs) =
      map-place f keeps x (sort_by lt xs) ∙ ap (place lt (f x)) (map-sort_by f keeps xs)
