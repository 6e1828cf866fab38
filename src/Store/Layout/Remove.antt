-- ===== src/Store/Layout/Remove.antt =====
-- The answers directory as a map from slots and formats to texts: what `delete` does to it.
use rescriptum.Prelude.{
  Bool, true, false, ◌&&◌, [], ◌∷◌, Option, none, some, Str, str_eq, str_eq_iff, ◌≡◌, refl, sym, ap,
  ◌∙◌, Bool-cases, Option-cases, inl, inr,
}
use mathlib.Core.Path.{subst}
use rescriptum.Prelude.Result.{Result, ok, err}
use rescriptum.Admin.Write.{Slot, machine, group, fallback, valid_format}
use rescriptum.Store.File.{Folder, Fault, StoreError, remove_in}
use rescriptum.Store.File.Served.{served}
use rescriptum.Store.File.Put.{is_ok}
use rescriptum.Store.File.Single.{IsSingle}
use rescriptum.Store.File.Remove.{without, served-remove_in}
use rescriptum.Store.Layout.{
  Inner, Root, groups_dir, default_dir, child, set_dir, keeps_empty, swept, remove_from, in_groups,
  remove_at, refused, delete_document,
}
use rescriptum.Store.Layout.Dirs.{
  look, seen_in, child-set_dir, child-set_dir_other, child-drop_dir, child-drop_dir_other,
}
use rescriptum.Store.Layout.Put.{
  document, same_slot, served_nothing, and_true, machine_apart, accepted, str_eq_swap,
}

-- the directory of a name, if there is one, has at most one file for each format
pub record IsTidy {D : Type 0} (n : Str) (d : Folder (Folder D)) : Type 0 where
  pub single : (x : Folder D) → child n d ≡ some x → IsSingle x

-- the directory of every slot does
pub record IsOrderly (root : Root) : Type 0 where
  pub top : (n : Str) → IsTidy n root
  pub groups : (x : Inner) → child groups_dir root ≡ some x → (n : Str) → IsTidy n x

without-none : (b : Bool) (format g : Str) → without b format none g ≡ none
without-none b format g = elim (Bool-cases (b && str_eq format g)) [
  | inl yes_it ↦ rw yes_it refl
  | inr other ↦ rw other refl
]

never :
    (b : Bool) (format : Str) (old : Option Str) (g : Str) → without (b && false) format old g ≡ old
never true format old g = refl
never false format old g = refl

module _ (fault : Fault) (format g : Str) where
  abbrev change : Bool → Option Str → Option Str
  change done old = without done format old g

  swept-see :
      {D : Type 0} (keeps : Bool) (n : Str) (d : Folder (Folder D)) (x : Folder D)
      (r : Folder D × Result StoreError Bool)
      → child n d ≡ some x
      → served r.0 g ≡ change (is_ok r.1) (served x g)
      → look n (λ x. served x g) (swept keeps n d r).0
        ≡ change (is_ok (swept keeps n d r).1) (served x g)
  swept-see true n d x ([], ok true) there e =
      ap (seen_in (λ x. served x g)) (child-set_dir n [] x d there) ∙ e
  swept-see {D = D} false n d x ([], ok true) there e =
      ap (seen_in (λ x. served x g)) (child-drop_dir n d) ∙ sym (served_nothing D g) ∙ e
  swept-see keeps n d x (f ∷ y, ok true) there e =
      ap (seen_in (λ x. served x g)) (child-set_dir n (f ∷ y) x d there) ∙ e
  swept-see keeps n d x (y, ok false) there e =
      ap (seen_in (λ x. served x g)) (child-set_dir n y x d there) ∙ e
  swept-see keeps n d x (y, err f) there e =
      ap (seen_in (λ x. served x g)) (child-set_dir n y x d there) ∙ e

  swept-aside :
      {D : Type 0} (keeps : Bool) (n m : Str) (d : Folder (Folder D))
      (r : Folder D × Result StoreError Bool)
      → str_eq n m ≡ false
      → child m (swept keeps n d r).0 ≡ child m d
  swept-aside true n m d ([], ok true) other = child-set_dir_other n m [] d other
  swept-aside false n m d ([], ok true) other = child-drop_dir_other n m d other
  swept-aside keeps n m d (e ∷ y, ok true) other = child-set_dir_other n m (e ∷ y) d other
  swept-aside keeps n m d (y, ok false) other = child-set_dir_other n m y d other
  swept-aside keeps n m d (y, err f) other = child-set_dir_other n m y d other

  remove_from_missing :
      {D : Type 0} (n : Str) (d : Folder (Folder D))
      → child n d ≡ none
      → remove_from fault format n d ≡ (d, ok false)
  unfolding remove_from
  remove_from_missing n d missing = rw (missing, remove_from) refl

  remove_from_there :
      {D : Type 0} (n : Str) (d : Folder (Folder D)) (x : Folder D)
      → child n d ≡ some x
      → remove_from fault format n d ≡ swept (keeps_empty fault) n d (remove_in fault format x)
  unfolding remove_from
  remove_from_there n d x there = rw (there, remove_from) refl

  -- one directory swept, the same one looked into
  look-remove_from :
      {D : Type 0} (n : Str) (d : Folder (Folder D))
      → IsTidy n d
      → look n (λ x. served x g) (remove_from fault format n d).0
        ≡ change (is_ok (remove_from fault format n d).1) (look n (λ x. served x g) d)
  look-remove_from n d tidy = elim (Option-cases (child n d)) [
    | inl missing ↦ rw (remove_from_missing n d missing) (
        ap (seen_in (λ x. served x g)) missing
        ∙ sym (without-none true format g)
        ∙ ap (λ o. change true (seen_in (λ x. served x g) o)) (sym missing))
    | inr (x, there) ↦ rw (remove_from_there n d x there) (
        swept-see (keeps_empty fault) n d x (remove_in fault format x) there
          (served-remove_in fault format x g (tidy.single x there))
        ∙ ap
            (λ o.
              change (is_ok (swept (keeps_empty fault) n d (remove_in fault format x)).1)
                (seen_in (λ x. served x g) o))
            (sym there))
  ]

  child-remove_from_other :
      {D : Type 0} (n m : Str) (d : Folder (Folder D))
      → str_eq n m ≡ false
      → child m (remove_from fault format n d).0 ≡ child m d
  child-remove_from_other n m d other = elim (Option-cases (child n d)) [
    | inl missing ↦ rw (remove_from_missing n d missing) refl
    | inr (x, there) ↦
        rw (remove_from_there n d x there)
          (swept-aside (keeps_empty fault) n m d (remove_in fault format x) other)
  ]

  -- and another
  aside :
      {D : Type 0} (n m : Str) (see : Folder D → Option Str) (d : Folder (Folder D))
      → str_eq n m ≡ false
      → look m see (remove_from fault format n d).0
        ≡ change (is_ok (remove_from fault format n d).1 && false) (look m see d)
  aside n m see d other =
      ap (seen_in see) (child-remove_from_other n m d other)
      ∙ sym (never (is_ok (remove_from fault format n d).1) format (look m see d) g)

  level :
      {D : Type 0} (n m : Str) (d : Folder (Folder D))
      → IsTidy n d
      → look m (λ x. served x g) (remove_from fault format n d).0
        ≡ change (is_ok (remove_from fault format n d).1 && str_eq n m) (look m (λ x. served x g) d)
  level n m d tidy =
      let r = remove_from fault format n d in
      elim (Bool-cases (str_eq n m)) [
        | inl same ↦
            subst
              (λ k. look k (λ x. served x g) r.0 ≡ change (is_ok r.1) (look k (λ x. served x g) d))
              ((str_eq_iff n m).0 same) (look-remove_from n d tidy)
            ∙ ap (λ c. change c (look m (λ x. served x g) d))
                (sym (and_true (is_ok r.1)) ∙ ap (λ c. is_ok r.1 && c) (sym same))
        | inr other ↦
            aside n m (λ x. served x g) d other
            ∙ ap (λ c. change (is_ok r.1 && c) (look m (λ x. served x g) d)) (sym other)
      ]

  -- the groups' directory
  in_groups_there :
      (act : Inner → Inner × Result StoreError Bool) (root : Root) (x : Inner)
      → child groups_dir root ≡ some x
      → in_groups act root ≡ (set_dir groups_dir (act x).0 root, (act x).1)
  in_groups_there act root x there = rw (there, in_groups) refl

  in_groups_missing :
      (act : Inner → Inner × Result StoreError Bool) (root : Root)
      → child groups_dir root ≡ none
      → in_groups act root ≡ (root, ok false)
  in_groups_missing act root missing = rw (missing, in_groups) refl

  group_group :
      (a b : Str) (root : Root)
      → IsOrderly root
      → look groups_dir (look b (λ x. served x g)) (in_groups (remove_from fault format a) root).0
        ≡ change
            (is_ok (in_groups (remove_from fault format a) root).1 && str_eq a b)
            (look groups_dir (look b (λ x. served x g)) root)
  group_group a b root orderly = elim (Option-cases (child groups_dir root)) [
    | inl missing ↦ rw (in_groups_missing (remove_from fault format a) root missing) (
        ap (seen_in (look b (λ x. served x g))) missing
        ∙ sym (without-none (str_eq a b) format g)
        ∙ ap (λ o. change (str_eq a b) (seen_in (look b (λ x. served x g)) o)) (sym missing))
    | inr (x, there) ↦ rw (in_groups_there (remove_from fault format a) root x there) (
        ap (seen_in (look b (λ x. served x g)))
          (child-set_dir groups_dir (remove_from fault format a x).0 x root there)
        ∙ level a b x (orderly.groups x there a)
        ∙ ap
            (λ o.
              change (is_ok (remove_from fault format a x).1 && str_eq a b)
                (seen_in (look b (λ x. served x g)) o))
            (sym there))
  ]

  group_aside :
      (a m : Str) (root : Root)
      → str_eq groups_dir m ≡ false
      → look m (λ x. served x g) (in_groups (remove_from fault format a) root).0
        ≡ change
            (is_ok (in_groups (remove_from fault format a) root).1 && false)
            (look m (λ x. served x g) root)
  group_aside a m root other =
      ap (seen_in (λ x. served x g)) same
      ∙ sym (
          never (is_ok (in_groups (remove_from fault format a) root).1) format
            (look m (λ x. served x g) root) g)
    where
      same : child m (in_groups (remove_from fault format a) root).0 ≡ child m root
      same = elim (Option-cases (child groups_dir root)) [
        | inl missing ↦ rw (in_groups_missing (remove_from fault format a) root missing) refl
        | inr (x, there) ↦
            rw (in_groups_there (remove_from fault format a) root x there)
              (child-set_dir_other groups_dir m (remove_from fault format a x).0 root other)
      ]

  document-remove_at :
      (slot slot' : Slot) (root : Root)
      → IsOrderly root
      → refused slot ≡ none
      → refused slot' ≡ none
      → document slot' g (remove_at fault slot format root).0
        ≡ change
            (is_ok (remove_at fault slot format root).1 && same_slot slot slot')
            (document slot' g root)
  unfolding document
  document-remove_at (machine a) (machine b) root o p q = level a b root (o.top a)
  document-remove_at (machine a) (group b) root o p q =
      aside a groups_dir (look b (λ x. served x g)) root (machine_apart a (accepted a p)).0
  document-remove_at (machine a) fallback root o p q =
      aside a default_dir (λ x. served x g) root (machine_apart a (accepted a p)).1
  document-remove_at (group a) (machine b) root o p q =
      group_aside a b root (str_eq_swap b groups_dir (machine_apart b (accepted b q)).0)
  document-remove_at (group a) (group b) root o p q = group_group a b root o
  document-remove_at (group a) fallback root o p q = group_aside a default_dir root refl
  document-remove_at fallback (machine b) root o p q =
      aside default_dir b (λ x. served x g) root
        (str_eq_swap b default_dir (machine_apart b (accepted b q)).1)
  document-remove_at fallback (group b) root o p q =
      aside default_dir groups_dir (look b (λ x. served x g)) root refl
  document-remove_at fallback fallback root o p q =
      level default_dir default_dir root (o.top default_dir)

-- the abstract store: a map, and one document of it taken away where the removal is done
abbrev pub taken_from : Bool → Slot → Str → (Slot → Str → Option Str) → Slot → Str → Option Str
taken_from done slot format m slot' g = without (done && same_slot slot slot') format (m slot' g) g

-- In an answers directory whose directories hold at most one file for each format, a `delete`
-- that reports no error leaves the map from slots and formats to texts without that document,
-- and one that reports an error leaves the map as it was, whatever the file system does, seen
-- from every slot whose identifier is accepted.
pub document-delete_document :
    (fault : Fault) (slot : Slot) (format : Str) (root : Root) (slot' : Slot) (g : Str)
    → IsOrderly root
    → refused slot' ≡ none
    → document slot' g (delete_document fault slot format root).0
      ≡ taken_from
          (is_ok (delete_document fault slot format root).1)
          slot
          format
          (λ s f. document s f root)
          slot'
          g
unfolding delete_document
document-delete_document fault slot format root slot' g orderly accepts =
    elim (Option-cases (refused slot)) [
      | inr (e, told) ↦ rw (told, delete_document) refl
      | inl fine ↦ elim (Bool-cases (valid_format format)) [
        | inr unknown ↦ rw (fine, unknown, delete_document) refl
        | inl valid ↦
            rw (fine, valid, delete_document)
              (document-remove_at fault format g slot slot' root orderly fine accepts)
      ]
    ]
