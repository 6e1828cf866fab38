-- ===== src/Tests/Files.antt =====
-- Inputs for the store of files.
use rescriptum.Prelude.{
  false, ◌≤◌, true, Bool-cases, inl, inr, if◌then◌else◌, str_eq, arith, [], ◌∷◌, none, some, Str,
  codes, ◌≡◌, refl,
}
use rescriptum.Prelude.{Bytes, find, decimal}
use rescriptum.Prelude.Utf8.{from_utf8}
use rescriptum.Tests.Stores.{texts}
use rescriptum.Store.File.{is_visible}
use rescriptum.Admin.Write
use rescriptum.Admin.Write.Stored.{is_stored}
use rescriptum.Store.Service.{Disk, file_store, taken_of}
use rescriptum.Store.Service.Stored.{put_document-served}
use rescriptum.Store.Snapshot.Faithful.{machine_body, is_entry, snapshot-document}
use rescriptum.Admin.Write.{machine, group, valid_format}
use mathlib.Core.Path.{subst}
use rescriptum.Store.File.{file, dir, no_fault, rename_fails, put_in}
use rescriptum.Store.File.Served.{served}
use rescriptum.Store.File.Serves.{put_in-serves}
use rescriptum.Store.File.Single.{IsSingle, count, put_in-IsSingle}
use rescriptum.Store.File.Put.{is_ok}
use rescriptum.Store.Layout.{Inner, Root, child, groups_dir, refused, put_document, delete_document}
use rescriptum.Store.Layout.Put.{document, written_to, document-put_document}
use rescriptum.Store.Layout.Remove.{IsOrderly, taken_from, document-delete_document}
use rescriptum.Store.Snapshot.{snapshot}

-- a machine as Proxmox, with a note beside the answer
abbrev lab : Inner
lab =
    (codes "README", file (some (codes "rack 4")))
    ∷ (codes "answer.toml", file (some (codes "old")))
    ∷ []

abbrev answers : Root
answers = (codes "aa-bb", dir lab) ∷ (codes ".hidden", dir lab) ∷ []

answer_there : document (machine (codes "aa-bb")) (codes "toml") answers ≡ some (codes "old")
unfolding document
answer_there = refl

put_in-serves_example :
    served (put_in no_fault 7 0 (codes "toml") (codes "new") lab).0 (codes "toml")
    ≡ some (codes "new")
unfolding put_in valid_format
put_in-serves_example = put_in-serves 7 0 (codes "toml") (codes "new") lab refl refl refl refl

lab-IsSingle : IsSingle lab
unfolding count
lab-IsSingle = record { at_most_one = few }
  where
    few : (g : Str) → count lab g ≤ 1
    few g = elim (Bool-cases (str_eq (codes "toml") g)) [
      | inl same ↦ rw same (omega arith)
      | inr other ↦ rw other (omega arith)
    ]

put_in-IsSingle_example :
    IsSingle (put_in (rename_fails true) 7 0 (codes "toml") (codes "new") lab).0
unfolding put_in valid_format
put_in-IsSingle_example =
    put_in-IsSingle (rename_fails true) 7 0 (codes "toml") (codes "new") lab refl refl lab-IsSingle

document-put_document_example :
    document
      (machine (codes "aa-bb"))
      (codes "toml")
      (put_document true no_fault 7 0 (group (codes "rack")) (codes "toml") (codes "new") answers).0
    ≡ written_to
        (is_ok
          (put_document true no_fault 7 0
            (group (codes "rack"))
            (codes "toml")
            (codes "new")
            answers).1)
        (group (codes "rack"))
        (codes "toml")
        (codes "new")
        (λ s f. document s f answers)
        (machine (codes "aa-bb"))
        (codes "toml")
unfolding refused
document-put_document_example =
    document-put_document true no_fault 7 0 (group (codes "rack")) (codes "toml") (codes "new")
      answers (machine (codes "aa-bb")) (codes "toml") refl refl

abbrev small : Root
small = (codes "aa-bb", dir lab) ∷ []

small-IsOrderly : IsOrderly small
small-IsOrderly = record {
  top = λ n. record { single = one n };
  groups = λ x h n. absurd (no_groups x h);
}
  where
    one : (n : Str) (x : Inner) → child n small ≡ some x → IsSingle x
    one n x h = elim (Bool-cases (str_eq (codes "aa-bb") n)) [
      | inl same ↦
          let e : some lab ≡ some x = subst (λ b. (if b then some lab else none) ≡ some x) same h in
          let at : lab ≡ x = cc in subst IsSingle at lab-IsSingle
      | inr other ↦
          let e : none ≡ some x = subst (λ b. (if b then some lab else none) ≡ some x) other h in cc
    ]

    no_groups : (x : Inner) → child groups_dir small ≡ some x → ⊥
    no_groups x h = let e : none ≡ some x = h in cc

document-delete_document_example :
    document
      (machine (codes "aa-bb"))
      (codes "toml")
      (delete_document no_fault (machine (codes "aa-bb")) (codes "toml") small).0
    ≡ taken_from
        (is_ok (delete_document no_fault (machine (codes "aa-bb")) (codes "toml") small).1)
        (machine (codes "aa-bb"))
        (codes "toml")
        (λ s f. document s f small)
        (machine (codes "aa-bb"))
        (codes "toml")
unfolding refused
document-delete_document_example =
    document-delete_document no_fault (machine (codes "aa-bb")) (codes "toml") small
      (machine (codes "aa-bb")) (codes "toml") small-IsOrderly refl

abbrev put_lab : Bytes
put_lab = 111 ∷ 107 ∷ []

-- nothing is refused
abbrev disk : Disk
disk = record {
  fault = λ n. no_fault;
  inner_fails = λ n. false;
  unreadable_dir = λ n. false;
  process = 7;
}

is_there :
    is_stored
      (Write.put_document texts
        (file_store disk)
        (machine (codes "lab"))
        (codes "toml")
        (some put_lab)
        (answers, 0)).1
    ≡ true
unfolding Write.put_document put_document snapshot decimal taken_of
is_there = refl

put_document-served_example :
    (body : Str) × (from_utf8 put_lab ≡ some body)
    × (machine_body (
          find
            (is_entry (codes "lab") (codes "toml"))
            (snapshot
              (Write.put_document texts
                (file_store disk)
                (machine (codes "lab"))
                (codes "toml")
                (some put_lab)
                (answers, 0)).0.0).machines)
        ≡ some body)
unfolding is_visible
put_document-served_example =
    put_document-served texts disk (codes "lab") (codes "toml") put_lab answers 0 (refl, refl, refl)
      refl (omega arith) is_there

snapshot-document_example :
    machine_body (find (is_entry (codes "aa-bb") (codes "toml")) (snapshot answers).machines)
    ≡ document (machine (codes "aa-bb")) (codes "toml") answers
unfolding is_visible
snapshot-document_example =
    snapshot-document answers (codes "aa-bb") (codes "toml") (refl, refl, refl) (omega arith)
