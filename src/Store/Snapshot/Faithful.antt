-- ===== src/Store/Snapshot/Faithful.antt =====
-- A snapshot shows the documents of the machines as the store holds them.
use rescriptum.Prelude.{
  ◌≤◌, Bool, true, false, ◌&&◌, List, [], ◌∷◌, ◌++◌, map, filter, filter_map, find, length, Option,
  none, some, Str, if◌then◌else◌, str_eq, str_eq_iff, str_ltb, ◌≡◌, refl, sym, ap, ◌∙◌, arith,
  Bool-cases, inl, inr,
}
use mathlib.Core.Path.{subst}
use rescriptum.Prelude.Order.{str_ltb_asym, str_ltb_negative}
use rescriptum.Select.Listing.{MachineEntry}
use rescriptum.Admin.Write.{machine}
use rescriptum.Store.File.{Folder, file, dir, is_visible, Found, documents_in}
use rescriptum.Store.File.Served.{served, body_of, or_else, has_format}
use rescriptum.Store.File.Sorted.{filter-sort_by}
use rescriptum.Store.Layout.{Root, child}
use rescriptum.Store.Layout.Dirs.{seen_in}
use rescriptum.Store.Layout.Put.{document}
use rescriptum.Store.Snapshot.{
  snapshot, all_documents, machine_entry, visible_dir, is_machine, by_dir_name,
}
use rescriptum.Store.Snapshot.Seen.{IsShown}

abbrev pub machine_body : Option MachineEntry → Option Str
machine_body none = none
machine_body (some m) = some m.body

abbrev pub is_entry : Str → Str → MachineEntry → Bool
is_entry id g m = str_eq m.id id && str_eq m.format g

abbrev first_served : {D : Type 0} → Str → List (Str × Folder D) → Option Str
first_served g [] = none
first_served g ((name, d) ∷ ds) = or_else (served d g) (first_served g ds)

abbrev named_dir : {D : Type 0} → Str → Str × D → Bool
named_dir id e = str_eq e.0 id

find-entries :
    (id g name : Str) (fs : List Found) (rest : List MachineEntry)
    → str_eq name id ≡ true
    → machine_body (find (is_entry id g) (map (machine_entry name) fs ++ rest))
      ≡ or_else (body_of (find (has_format g) fs)) (machine_body (find (is_entry id g) rest))
find-entries id g name [] rest same = refl
find-entries id g name (f ∷ fs) rest same = elim (Bool-cases (str_eq f.format g)) [
  | inl here ↦ rw (same, here) refl
  | inr other ↦ rw (same, other) (find-entries id g name fs rest same)
]

find-entries_other :
    (id g name : Str) (fs : List Found) (rest : List MachineEntry)
    → str_eq name id ≡ false
    → find (is_entry id g) (map (machine_entry name) fs ++ rest) ≡ find (is_entry id g) rest
find-entries_other id g name [] rest other = refl
find-entries_other id g name (f ∷ fs) rest other =
    rw other (find-entries_other id g name fs rest other)

find-documents :
    {D : Type 0} (id g : Str) (ds : List (Str × Folder D))
    → machine_body (find (is_entry id g) (all_documents machine_entry ds))
      ≡ first_served g (filter (named_dir id) ds)
unfolding served
find-documents id g [] = refl
find-documents id g ((name, d) ∷ ds) = elim (Bool-cases (str_eq name id)) [
  | inl same ↦ rw same (
      find-entries id g name (documents_in d).0 (all_documents machine_entry ds) same
      ∙ ap (or_else (served d g)) (find-documents id g ds))
  | inr other ↦ rw other (
      ap machine_body
        (find-entries_other id g name (documents_in d).0 (all_documents machine_entry ds) other)
      ∙ find-documents id g ds)
]

abbrev pub dirs_named : {D : Type 0} → Str → Folder D → List (Str × D)
dirs_named id [] = []
dirs_named id ((name, file _) ∷ d) = dirs_named id d
dirs_named id ((name, dir x) ∷ d) =
    if str_eq name id then (name, x) ∷ dirs_named id d else dirs_named id d

abbrev pub first_dir : {D : Type 0} → List (Str × D) → Option D
first_dir [] = none
first_dir ((_, x) ∷ _) = some x

or_else-none : {A : Type 0} (o : Option A) → or_else o none ≡ o
or_else-none none = refl
or_else-none (some a) = refl

first_served-one :
    {D : Type 0} (g : Str) (ds : List (Str × Folder D))
    → length ds ≤ 1
    → first_served g (by_dir_name ds) ≡ seen_in (λ x. served x g) (first_dir ds)
first_served-one g [] few = refl
first_served-one g ((name, d) ∷ []) few = or_else-none (served d g)
first_served-one g (x ∷ y ∷ ds) few = absurd (omega arith)

abbrev joined : {A : Type 0} → Option A → List A → List A
joined o xs = elim o [ none ↦ xs | some x ↦ x ∷ xs ]

unnamed : (id name : Str) → IsShown id → is_visible name ≡ false → str_eq name id ≡ false
unnamed id name s hidden = elim (Bool-cases (str_eq name id)) [
  | inr other ↦ other
  | inl same ↦
      let here : IsShown name = subst IsShown (sym ((str_eq_iff name id).0 same)) s in
      absurd (ground (arith, hidden, here.0))
]

module _ {D : Type 0} (id : Str) where
  no_machine :
      (name : Str) (x : D) → IsShown id → is_machine (name, x) ≡ false → str_eq name id ≡ false
  no_machine name x s dropped = elim (Bool-cases (str_eq name id)) [
    | inr other ↦ other
    | inl same ↦
        let here : IsShown name = subst IsShown (sym ((str_eq_iff name id).0 same)) s in
        absurd (ground (arith, dropped, here.1, here.2))
  ]

  -- nothing of that name is passed over
  filter-dirs :
      (d : Folder D)
      → IsShown id
      → filter (named_dir id) (filter is_machine (filter_map visible_dir d)) ≡ dirs_named id d
  filter-dirs [] s = refl
  filter-dirs ((name, file t) ∷ d) s = filter-dirs d s
  filter-dirs ((name, dir x) ∷ d) s =
      let seen = filter_map visible_dir d in
      let rest = filter is_machine seen in
      elim (Bool-cases (is_visible name)) [
        | inr hidden ↦
            ap
              (λ b.
                filter (named_dir id)
                  (filter is_machine (joined (if b then some (name, x) else none) seen)))
              hidden
            ∙ filter-dirs d s
            ∙ sym (
                ap (λ b. if b then (name, x) ∷ dirs_named id d else dirs_named id d)
                  (unnamed id name s hidden))
        | inl shown ↦
            ap
              (λ b.
                filter (named_dir id)
                  (filter is_machine (joined (if b then some (name, x) else none) seen)))
              shown
            ∙ elim (Bool-cases (is_machine (name, x))) [
              | inl kept ↦
                  ap (λ b. filter (named_dir id) (if b then (name, x) ∷ rest else rest)) kept
                  ∙ ap (λ ds. if str_eq name id then (name, x) ∷ ds else ds) (filter-dirs d s)
              | inr dropped ↦
                  ap (λ b. filter (named_dir id) (if b then (name, x) ∷ rest else rest)) dropped
                  ∙ filter-dirs d s
                  ∙ sym (
                      ap (λ b. if b then (name, x) ∷ dirs_named id d else dirs_named id d)
                        (no_machine name x s dropped))
            ]
      ]

  pub child-dirs : (d : Folder D) → child id d ≡ first_dir (dirs_named id d)
  child-dirs [] = refl
  child-dirs ((name, file t) ∷ d) = child-dirs d
  child-dirs ((name, dir x) ∷ d) = elim (Bool-cases (str_eq name id)) [
    | inl same ↦ rw same refl
    | inr other ↦ rw other (child-dirs d)
  ]

-- For an identifier that a snapshot can show and that names one directory at most, the document of
-- a format that the snapshot shows for the machine is the one that the answers directory holds
-- for it, and there is none in the one where there is none in the other.
pub snapshot-document :
    (root : Root) (id g : Str)
    → IsShown id
    → length (dirs_named id root) ≤ 1
    → machine_body (find (is_entry id g) (snapshot root).machines) ≡ document (machine id) g root
unfolding snapshot document
snapshot-document root id g shown few =
    let dirs = filter is_machine (filter_map visible_dir root) in
    find-documents id g (by_dir_name dirs)
    ∙ ap (first_served g) (
        filter-sort_by (λ a b. str_ltb a.0 b.0) (λ a b. str_ltb_asym a.0 b.0)
          (λ a b c. str_ltb_negative a.0 b.0 c.0) (named_dir id) dirs
        ∙ ap by_dir_name (filter-dirs id root shown))
    ∙ first_served-one g (dirs_named id root) few
    ∙ ap (seen_in (λ x. served x g)) (sym (child-dirs id root))
