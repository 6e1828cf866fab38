-- ===== src/Store/Layout/Dirs.antt =====
-- The directory of a name, before and after something was done inside one.
use rescriptum.Prelude.{
  Bool, true, false, ◌||◌, [], ◌∷◌, ◌++◌, any, Option, none, some, Str, if◌then◌else◌, str_eq,
  str_eq_iff, str_eq_self, ◌≡◌, refl, sym, ap, ◌∙◌, Bool-cases, Option-cases, inl, inr,
}
use mathlib.Core.Path.{subst}
use rescriptum.Prelude.Result.{Result, err}
use rescriptum.Store.File.{Folder, file, dir, StoreError, io, is_file_named}
use rescriptum.Store.File.Put.{is_ok}
use rescriptum.Store.Layout.{child, set_dir, drop_dir, with_dir}

abbrev pub seen_in : {D : Type 0} → (D → Option Str) → Option D → Option Str
seen_in see none = none
seen_in see (some x) = see x

-- what is seen through the directory of a name
abbrev pub look : {D : Type 0} → Str → (D → Option Str) → Folder D → Option Str
look n see d = seen_in see (child n d)

apart : (n m name : Str) → str_eq n m ≡ false → str_eq name n ≡ true → str_eq name m ≡ false
apart n m name h same = subst (λ k. str_eq k m ≡ false) (sym ((str_eq_iff name n).0 same)) h

module _ {D : Type 0} where
  pub child-set_dir :
      (n : Str) (x y : D) (d : Folder D) → child n d ≡ some y → child n (set_dir n x d) ≡ some x
  child-set_dir n x y [] h = cc
  child-set_dir n x y ((name, file t) ∷ d) h = child-set_dir n x y d h
  child-set_dir n x y ((name, dir z) ∷ d) h = elim (Bool-cases (str_eq name n)) [
    | inl same ↦ rw same (rw same refl)
    | inr other ↦ rw other (
        rw other
          (child-set_dir n x y d (subst (λ b. (if b then some z else child n d) ≡ some y) other h)))
  ]

  pub child-set_dir_other :
      (n m : Str) (x : D) (d : Folder D) → str_eq n m ≡ false → child m (set_dir n x d) ≡ child m d
  child-set_dir_other n m x [] h = refl
  child-set_dir_other n m x ((name, file t) ∷ d) h = child-set_dir_other n m x d h
  child-set_dir_other n m x ((name, dir z) ∷ d) h = elim (Bool-cases (str_eq name n)) [
    | inl same ↦ rw (same, apart n m name h same) (child-set_dir_other n m x d h)
    | inr other ↦
        rw other (ap (λ o. if str_eq name m then some z else o) (child-set_dir_other n m x d h))
  ]

  child-append_missing :
      (n : Str) (x : D) (d : Folder D)
      → child n d ≡ none
      → child n (d ++ ((n, dir x) ∷ [])) ≡ some x
  child-append_missing n x [] h = rw (str_eq_self n) refl
  child-append_missing n x ((name, file t) ∷ d) h = child-append_missing n x d h
  child-append_missing n x ((name, dir z) ∷ d) h = elim (Bool-cases (str_eq name n)) [
    | inl same ↦ let e = subst (λ b. (if b then some z else child n d) ≡ none) same h in cc
    | inr other ↦
        rw other (
          child-append_missing n x d
            (subst (λ b. (if b then some z else child n d) ≡ none) other h))
  ]

  child-append_other :
      (n m : Str) (x : D) (d : Folder D)
      → str_eq n m ≡ false
      → child m (d ++ ((n, dir x) ∷ [])) ≡ child m d
  child-append_other n m x [] h = rw h refl
  child-append_other n m x ((name, file t) ∷ d) h = child-append_other n m x d h
  child-append_other n m x ((name, dir z) ∷ d) h =
      ap (λ o. if str_eq name m then some z else o) (child-append_other n m x d h)

  pub child-drop_dir : (n : Str) (d : Folder D) → child n (drop_dir n d) ≡ none
  child-drop_dir n [] = refl
  child-drop_dir n ((name, file t) ∷ d) = child-drop_dir n d
  child-drop_dir n ((name, dir z) ∷ d) = elim (Bool-cases (str_eq name n)) [
    | inl same ↦ rw same (child-drop_dir n d)
    | inr other ↦ rw other (rw other (child-drop_dir n d))
  ]

  pub child-drop_dir_other :
      (n m : Str) (d : Folder D) → str_eq n m ≡ false → child m (drop_dir n d) ≡ child m d
  child-drop_dir_other n m [] h = refl
  child-drop_dir_other n m ((name, file t) ∷ d) h = child-drop_dir_other n m d h
  child-drop_dir_other n m ((name, dir z) ∷ d) h = elim (Bool-cases (str_eq name n)) [
    | inl same ↦ rw (same, apart n m name h same) (child-drop_dir_other n m d h)
    | inr other ↦
        rw other (ap (λ o. if str_eq name m then some z else o) (child-drop_dir_other n m d h))
  ]

  module _ {R : Type 0} (n : Str) (fresh : D) (act : D → D × Result StoreError R) where
    pub with_dir_there :
        (fails : Bool) (d : Folder D) (x : D)
        → child n d ≡ some x
        → with_dir fails n fresh act d ≡ (set_dir n (act x).0 d, (act x).1)
    unfolding with_dir
    with_dir_there fails d x there = rw (there, with_dir) refl

    pub with_dir_stopped :
        (fails : Bool) (d : Folder D)
        → child n d ≡ none
        → (fails || any (is_file_named n) d) ≡ true
        → with_dir fails n fresh act d ≡ (d, err io)
    unfolding with_dir
    with_dir_stopped fails d missing stopped = rw (missing, stopped, with_dir) refl

    pub with_dir_made :
        (fails : Bool) (d : Folder D)
        → child n d ≡ none
        → (fails || any (is_file_named n) d) ≡ false
        → with_dir fails n fresh act d ≡ (d ++ ((n, dir (act fresh).0) ∷ []), (act fresh).1)
    unfolding with_dir
    with_dir_made fails d missing made = rw (missing, made, with_dir) refl

    -- another name's directory
    pub child-with_dir_other :
        (fails : Bool) (m : Str) (d : Folder D)
        → str_eq n m ≡ false
        → child m (with_dir fails n fresh act d).0 ≡ child m d
    child-with_dir_other fails m d h = elim (Option-cases (child n d)) [
      | inr (x, there) ↦ rw (with_dir_there fails d x there) (child-set_dir_other n m (act x).0 d h)
      | inl missing ↦ elim (Bool-cases (fails || any (is_file_named n) d)) [
        | inl stopped ↦ rw (with_dir_stopped fails d missing stopped) refl
        | inr made ↦
            rw (with_dir_made fails d missing made) (child-append_other n m (act fresh).0 d h)
      ]
    ]

    -- the name's own: what is seen in it changes as the act changes it
    pub look-with_dir :
        (fails : Bool) (see : D → Option Str) (change : Bool → Option Str → Option Str)
        (d : Folder D)
        → see fresh ≡ none
        → change false none ≡ none
        → ((x : D) → see (act x).0 ≡ change (is_ok (act x).1) (see x))
        → look n see (with_dir fails n fresh act d).0
          ≡ change (is_ok (with_dir fails n fresh act d).1) (look n see d)
    look-with_dir fails see change d empty still acts = elim (Option-cases (child n d)) [
      | inr (x, there) ↦ rw (with_dir_there fails d x there) (
          ap (seen_in see) (child-set_dir n (act x).0 x d there)
          ∙ acts x
          ∙ ap (λ o. change (is_ok (act x).1) (seen_in see o)) (sym there))
      | inl missing ↦ elim (Bool-cases (fails || any (is_file_named n) d)) [
        | inl stopped ↦ rw (with_dir_stopped fails d missing stopped) (
            ap (seen_in see) missing
            ∙ sym still
            ∙ ap (λ o. change false (seen_in see o)) (sym missing))
        | inr made ↦ rw (with_dir_made fails d missing made) (
            ap (seen_in see) (child-append_missing n (act fresh).0 d missing)
            ∙ acts fresh
            ∙ ap (change (is_ok (act fresh).1)) empty
            ∙ ap (λ o. change (is_ok (act fresh).1) (seen_in see o)) (sym missing))
      ]
    ]
