-- ===== src/Store/Service/Stored.antt =====
-- A document that the administration reports as stored is served from the store of files.
use rescriptum.Prelude.{
  ℕ, ◌+◌, Bool, true, false, ◌&&◌, none, some, find, length, ◌≤◌, Str, Bytes, if◌then◌else◌,
  str_eq_self, to_ascii_lowercase, ◌≡◌, refl, ap, ◌∙◌, arith, Option-cases, inl, inr,
}
use mathlib.Core.Path.{subst}
use rescriptum.Prelude.Result.{Result, ok, err}
use rescriptum.Prelude.Utf8.{from_utf8}
use rescriptum.Select.Docs.{Docs}
use rescriptum.Admin.Write
use rescriptum.Admin.Write.{Slot, machine, group, fallback, Store, existed, apply}
use rescriptum.Admin.Write.Stored.{is_stored, put_document-stored}
use rescriptum.Store.File.{Fault, StoreError}
use rescriptum.Store.File.Put.{is_ok, updated}
use rescriptum.Store.Layout.{Root, put_document, refused}
use rescriptum.Store.Layout.Put.{document, same_slot, document-put_document}
use rescriptum.Store.Snapshot.{snapshot}
use rescriptum.Store.Snapshot.Seen.{IsShown}
use rescriptum.Store.Snapshot.Faithful.{machine_body, is_entry, dirs_named, snapshot-document}
use rescriptum.Store.Snapshot.Dirs.{dirs_named-put_document}
use rescriptum.Store.Service.{file_store, told, Disk}

same_slot_self : (slot : Slot) → same_slot slot slot ≡ true
same_slot_self (machine a) = str_eq_self a
same_slot_self (group a) = str_eq_self a
same_slot_self fallback = refl

accepted-ok :
    (inner : Bool) (fault : Fault) (pid seq : ℕ) (slot : Slot) (format body : Str) (root : Root)
    → is_ok (put_document inner fault pid seq slot format body root).1 ≡ true
    → refused slot ≡ none
unfolding put_document
accepted-ok inner fault pid seq slot format body root h = elim (Option-cases (refused slot)) [
  | inl fine ↦ fine
  | inr (e, told_so) ↦
      let no : is_ok (put_document inner fault pid seq slot format body root).1 ≡ false =
        rw (told_so, put_document) refl in
      absurd (ground (arith, h, no))
]

document-ok :
    (inner : Bool) (fault : Fault) (pid seq : ℕ) (slot : Slot) (format body : Str) (root : Root)
    → to_ascii_lowercase format ≡ format
    → is_ok (put_document inner fault pid seq slot format body root).1 ≡ true
    → document slot format (put_document inner fault pid seq slot format body root).0 ≡ some body
document-ok inner fault pid seq slot format body root small done =
    document-put_document inner fault pid seq slot format body root slot format small
      (accepted-ok inner fault pid seq slot format body root done)
    ∙ ap (λ d. updated (d && same_slot slot slot) format body (document slot format root) format)
        done
    ∙ ap (λ b. updated b format body (document slot format root) format) (same_slot_self slot)
    ∙ ap (λ b. if b then some body else document slot format root) (str_eq_self format)

done_so :
    (D : Docs) (S : Store) (r : Result StoreError (Unit {0})) (q s : S.State) (there : Bool)
    → existed D S (told r, q) ≡ (ok there, s)
    → (is_ok r ≡ true) × (q ≡ s)
done_so D S (ok _) q s there h = (refl, ap (λ p. p.1) h)
done_so D S (err e) q s there h = cc

-- what a write of a machine's document leaves
abbrev Serving : Str → Str → Str → Root → Type 0
Serving id format body root =
    (document (machine id) format root ≡ some body) × (length (dirs_named id root) ≤ 1)

-- a write over files that is reported as done
apply-Serving :
    (D : Docs) (disk : Disk) (id format body : Str) (root root' : Root) (n n' : ℕ) (there : Bool)
    → to_ascii_lowercase format ≡ format
    → length (dirs_named id root) ≤ 1
    → apply D (file_store disk) (machine id) format (some body) (root, n) ≡ (ok there, (root', n'))
    → Serving id format body root'
apply-Serving D disk id format body root root' n n' there small few h =
    let inner = disk.inner_fails n in
    let x = put_document inner (disk.fault n) disk.process n (machine id) format body root in
    let done = done_so D (file_store disk) x.1 (x.0, n + 1) (root', n') there h in
    subst (Serving id format body) (ap (λ p. p.0) done.1) (
      document-ok inner (disk.fault n) disk.process n (machine id) format body root small done.0,
      dirs_named-put_document inner (disk.fault n) disk.process n id format body root few,
    )

-- Over the store of files, whatever the file system refuses: for a machine whose identifier a
-- snapshot can show and that has at most one directory, a PUT that is answered as stored, in a
-- format that is spelled in lower case, had a body of UTF-8, and a snapshot taken then holds
-- exactly that text for the machine and the format.
pub put_document-served :
    (D : Docs) (disk : Disk) (id format : Str) (bytes : Bytes) (root : Root) (n : ℕ)
    → IsShown id
    → to_ascii_lowercase format ≡ format
    → length (dirs_named id root) ≤ 1
    → is_stored
        (Write.put_document D (file_store disk) (machine id) format (some bytes) (root, n)).1
      ≡ true
    → (body : Str) × (from_utf8 bytes ≡ some body)
      × (machine_body (
            find
              (is_entry id format)
              (snapshot
                (Write.put_document D
                  (file_store disk)
                  (machine id)
                  format
                  (some bytes)
                  (root, n)).0.0).machines)
          ≡ some body)
put_document-served D disk id format bytes root n shown small few h =
    let written = put_document-stored D (file_store disk) (machine id) format bytes (root, n) h in
    let after =
      (Write.put_document D (file_store disk) (machine id) format (some bytes) (root, n)).0 in
    let (there, single) =
      apply-Serving D disk id format written.0 root after.0 n after.1 written.2.0 small few
        written.2.1 in
    (written.0, written.1, snapshot-document after.0 id format shown single ∙ there)
