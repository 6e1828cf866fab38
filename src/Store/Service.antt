-- ===== src/Store/Service.antt =====
-- The store of files behind the administration: `FileStore` of src/store/file.rs as the store of
-- src/admin.rs. The state is the answers directory and the count of the writes, which names the
-- temporary files; a `Disk` says what the file system refuses in each call.
pub mod Stored
use rescriptum.Prelude.{
  ℕ, ◌+◌, Bool, false, if◌then◌else◌, List, ◌∷◌, [], ◌++◌, map, Str, codes, join,
}
use rescriptum.Prelude.Result.{Result, ok, err}
use rescriptum.Admin.Write.{Slot, Store}
use rescriptum.Select.Listing
use rescriptum.Select.Listing.{Problem, reported}
use rescriptum.Store.File.{
  Fault, StoreError, invalid_id, invalid_machine_id, invalid_format, io, Trouble, unreadable,
  already,
}
use rescriptum.Store.Layout.{Root, put_document, delete_document}
use rescriptum.Store.Snapshot.{snapshot, Taken, Note, in_directory, stray, Names}

-- a message, by what it names
abbrev message : StoreError → Str
message (invalid_id id) = codes "not a usable identifier: " ++ id
message (invalid_machine_id id) = codes "reserved: " ++ id
message (invalid_format format) = codes "not a format this server can serve: " ++ format
message io = codes "the file system refused"

abbrev shown : Names → Str
shown = join (codes "/")

abbrev trouble_at : Names → Trouble → Str
trouble_at parent (unreadable name) = shown (parent ++ (name ∷ [])) ++ codes ": unreadable"
trouble_at parent (already name first) =
    shown (parent ++ (name ∷ [])) ++ (codes ": " ++ (first ++ codes " already answers"))

abbrev problem_of : Note → Problem
problem_of (in_directory parent t) = reported (trouble_at parent t)
problem_of (stray from _) = reported (shown from ++ codes ": not being served")

unfoldable pub taken_of : Root → Listing.Snapshot
unfolding snapshot
taken_of root =
    let t = snapshot root in
    record {
      machines = t.machines;
      groups = t.groups;
      fallbacks = t.fallbacks;
      problems = map problem_of t.notes;
    }

abbrev pub told : {A : Type 0} → Result StoreError A → Result Str A
told (ok a) = ok a
told (err e) = err (message e)

-- What the file system refuses after so many writes: the failure of a write or of a removal, the
-- second of two directories that a group wants, and the reading of the answers directory.
pub record Disk : Type 0 where
  pub fault : ℕ → Fault
  pub inner_fails : ℕ → Bool
  pub unreadable_dir : ℕ → Bool
  pub process : ℕ

abbrev pub file_store : Disk → Store
file_store disk = record {
  State = Root × ℕ;
  snapshot = λ s.
      if disk.unreadable_dir s.1
      then err (codes "the answers directory cannot be read")
      else ok (taken_of s.0);
  put = λ slot format body s.
      let r =
        put_document (disk.inner_fails s.1) (disk.fault s.1) disk.process s.1 slot format body
          s.0 in
      (told r.1, (r.0, s.1 + 1));
  delete = λ slot format s.
      let r = delete_document (disk.fault s.1) slot format s.0 in (told r.1, (r.0, s.1 + 1));
}
