-- ===== src/Store/Snapshot/Dirs.antt =====
-- How many directories the answers directory has for one identifier, where a document is put.
use rescriptum.Prelude.{
  ℕ, suc, ◌≤◌, Bool, ◌||◌, List, [], ◌∷◌, ◌++◌, any, length, none, Str, str_eq, str_eq_self, ◌≡◌,
  refl, sym, ◌∙◌, arith, Bool-cases, Option-cases, inl, inr,
}
use rescriptum.Prelude.Result.{Result}
use rescriptum.Admin.Write.{machine, valid_format}
use rescriptum.Store.File.{Folder, file, dir, Fault, StoreError, is_file_named, put_in}
use rescriptum.Store.Layout.{Root, child, set_dir, with_dir, outer_fails, refused, put_document}
use rescriptum.Store.Layout.Dirs.{with_dir_there, with_dir_stopped, with_dir_made}
use rescriptum.Store.Snapshot.Faithful.{dirs_named, first_dir, child-dirs}

module _ {D : Type 0} (id : Str) where
  -- the names stay as they are
  length-set_dir :
      (x : D) (d : Folder D) → length (dirs_named id (set_dir id x d)) ≡ length (dirs_named id d)
  length-set_dir x [] = refl
  length-set_dir x ((name, file t) ∷ d) = length-set_dir x d
  length-set_dir x ((name, dir z) ∷ d) = elim (Bool-cases (str_eq name id)) [
    | inl same ↦ rw same (rw same (omega (arith, length-set_dir x d)))
    | inr other ↦ rw other (rw other (length-set_dir x d))
  ]

  length-snoc :
      (x : D) (d : Folder D)
      → length (dirs_named id (d ++ ((id, dir x) ∷ []))) ≡ suc (length (dirs_named id d))
  length-snoc x [] = rw (str_eq_self id) refl
  length-snoc x ((name, file t) ∷ d) = length-snoc x d
  length-snoc x ((name, dir z) ∷ d) = elim (Bool-cases (str_eq name id)) [
    | inl same ↦ rw same (omega (arith, length-snoc x d))
    | inr other ↦ rw other (length-snoc x d)
  ]

  no_dirs : (ds : List (Str × D)) → first_dir ds ≡ none → length ds ≡ 0
  no_dirs [] h = refl
  no_dirs ((name, x) ∷ ds) h = cc

  length-with_dir :
      {R : Type 0} (fails : Bool) (fresh : D) (act : D → D × Result StoreError R) (d : Folder D)
      → length (dirs_named id d) ≤ 1
      → length (dirs_named id (with_dir fails id fresh act d).0) ≤ 1
  length-with_dir fails fresh act d few = elim (Option-cases (child id d)) [
    | inr (x, there) ↦
        rw (with_dir_there id fresh act fails d x there)
          (omega (arith, few, length-set_dir (act x).0 d))
    | inl missing ↦ elim (Bool-cases (fails || any (is_file_named id) d)) [
      | inl stopped ↦ rw (with_dir_stopped id fresh act fails d missing stopped) few
      | inr made ↦ rw (with_dir_made id fresh act fails d missing made) (
          omega (
            arith,
            length-snoc (act fresh).0 d,
            no_dirs (dirs_named id d) (sym (child-dirs id d) ∙ missing),
          ))
    ]
  ]

-- A put of a machine's document gives the machine no second directory.
pub dirs_named-put_document :
    (inner : Bool) (fault : Fault) (pid seq : ℕ) (id format body : Str) (root : Root)
    → length (dirs_named id root) ≤ 1
    → length (dirs_named id (put_document inner fault pid seq (machine id) format body root).0) ≤ 1
unfolding put_document
dirs_named-put_document inner fault pid seq id format body root few =
    elim (Option-cases (refused (machine id))) [
      | inr (e, told) ↦ rw (told, put_document) few
      | inl fine ↦ elim (Bool-cases (valid_format format)) [
        | inr unknown ↦ rw (fine, unknown, put_document) few
        | inl valid ↦
            rw (fine, valid, put_document)
              (length-with_dir id (outer_fails fault) [] (put_in fault pid seq format body) root
                few)
      ]
    ]
