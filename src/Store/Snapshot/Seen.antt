-- ===== src/Store/Snapshot/Seen.antt =====
-- Which machines a snapshot shows.
use rescriptum.Prelude.{
  true, false, List, [], ◌∷◌, ◌++◌, map, filter, filter_map, Str, ◌≡◌, arith, Bool-cases, inl, inr,
  All, str_ltb,
}
use rescriptum.Select.Build.Groups.{place}
use rescriptum.Store.File.{Folder, file, dir, is_visible, Found, documents_in}
use rescriptum.Store.Layout.{Root, groups_dir, default_dir, eq_ignore_ascii_case}
use rescriptum.Store.Snapshot.{
  snapshot, all_documents, machine_entry, visible_dir, is_machine, by_dir_name,
}

-- an identifier that a snapshot can show
abbrev pub IsShown : Str → Type 0
IsShown id =
    (is_visible id ≡ true)
    × (eq_ignore_ascii_case id groups_dir ≡ false)
    × (eq_ignore_ascii_case id default_dir ≡ false)

module _ {A : Type 0} (P : A → Type 0) where
  All-append : (xs ys : List A) → All P xs → All P ys → All P (xs ++ ys)
  All-append [] ys p q = q
  All-append (x ∷ xs) ys p q = (p.0, All-append xs ys p.1 q)

module _ {D : Type 0} where
  visible-All : (d : Folder D) → All (λ e. is_visible e.0 ≡ true) (filter_map visible_dir d)
  visible-All [] = tt
  visible-All ((name, file t) ∷ d) = visible-All d
  visible-All ((name, dir x) ∷ d) = elim (Bool-cases (is_visible name)) [
    | inl shown ↦ rw (shown, All) (shown, visible-All d)
    | inr hidden ↦ rw (hidden, All) (visible-All d)
  ]

  machine-All :
      (ds : List (Str × D))
      → All (λ e. is_visible e.0 ≡ true) ds
      → All (λ e. IsShown e.0) (filter is_machine ds)
  machine-All [] p = tt
  machine-All ((name, x) ∷ ds) p = elim (Bool-cases (is_machine (name, x))) [
    | inr kept ↦ rw kept (machine-All ds p.1)
    | inl free ↦ rw free ((p.0, ground arith, ground arith), machine-All ds p.1)
  ]

  place-All :
      (e : Str × D) (ds : List (Str × D))
      → IsShown e.0
      → All (λ e. IsShown e.0) ds
      → All (λ e. IsShown e.0) (place (λ a b. str_ltb a.0 b.0) e ds)
  place-All e [] p ps = (p, tt)
  place-All e (f ∷ ds) p ps = elim (Bool-cases (str_ltb f.0 e.0)) [
    | inl before ↦ rw before (ps.0, place-All e ds p ps.1)
    | inr behind ↦ rw behind (p, ps)
  ]

  sort-All :
      (ds : List (Str × D)) → All (λ e. IsShown e.0) ds → All (λ e. IsShown e.0) (by_dir_name ds)
  sort-All [] p = tt
  sort-All (e ∷ ds) p = place-All e (by_dir_name ds) p.0 (sort-All ds p.1)

entries-All :
    (id : Str) (fs : List Found) → IsShown id → All (λ m. IsShown m.id) (map (machine_entry id) fs)
entries-All id [] p = tt
entries-All id (f ∷ fs) p = (p, entries-All id fs p)

documents-All :
    {D : Type 0} (ds : List (Str × Folder D))
    → All (λ e. IsShown e.0) ds
    → All (λ m. IsShown m.id) (all_documents machine_entry ds)
documents-All [] p = tt
documents-All ((name, d) ∷ ds) p =
    All-append (λ m. IsShown m.id) (map (machine_entry name) (documents_in d).0)
      (all_documents machine_entry ds) (entries-All name (documents_in d).0 p.0)
      (documents-All ds p.1)

-- Every machine that a snapshot shows has an identifier that does not start with a dot and is
-- neither `groups` nor `default` in any letter case.
pub snapshot-IsShown : (root : Root) → All (λ m. IsShown m.id) (snapshot root).machines
unfolding snapshot
snapshot-IsShown root =
    let dirs = filter_map visible_dir root in
    documents-All (by_dir_name (filter is_machine dirs))
      (sort-All (filter is_machine dirs) (machine-All dirs (visible-All root)))
