-- ===== src/Store/Layout.antt =====
-- The answers directory of src/store/file.rs, with the identifiers of src/store/mod.rs: a
-- directory for each machine, one for the groups with a directory for each, and one for the
-- fallback. Nothing below the directory of a group is ever read.
pub mod Dirs
pub mod Put
pub mod Remove
use rescriptum.Prelude.{
  ℕ, Bool, true, false, not, ◌&&◌, ◌||◌, List, [], ◌∷◌, ◌++◌, map, filter, filter_map, any, Option,
  none, some, Str, codes, if◌then◌else◌, str_eq, str_ltb, to_ascii_lowercase, is_some,
}
use rescriptum.Prelude.Result.{Result, ok, err}
use rescriptum.Admin.Write.{Slot, machine, group, fallback, valid_id, valid_format}
use rescriptum.Select.Listing.{MachineEntry, GroupEntry, FallbackEntry}
use rescriptum.Select.Build.Groups.{sort_by}
use rescriptum.Store.File.{
  Folder, Entry, Node, file, dir, Fault, no_fault, mkdir_fails, preserve_fails, rename_fails,
  remove_fails, sweep_fails, write_fails, StoreError, invalid_id, invalid_machine_id,
  invalid_format, io, put_in, remove_in, is_file_named, is_visible, servable, Found, Trouble,
  documents_in,
}

-- the directory of a group, that of a machine or of all groups, and the answers directory
abbrev pub Leaf : Type 0
Leaf = Folder (Unit {0})

abbrev pub Inner : Type 0
Inner = Folder Leaf

abbrev pub Root : Type 0
Root = Folder Inner

abbrev pub groups_dir : Str
groups_dir = codes "groups"

abbrev pub default_dir : Str
default_dir = codes "default"

abbrev pub eq_ignore_ascii_case : Str → Str → Bool
eq_ignore_ascii_case a b = str_eq (to_ascii_lowercase a) (to_ascii_lowercase b)

unfoldable pub valid_machine_id : Str → Bool
unfolding valid_id
valid_machine_id id =
    valid_id id && not (any (λ r. eq_ignore_ascii_case id r) (groups_dir ∷ default_dir ∷ []))

-- the directory of a name, and what is there with another in its place or without it
abbrev pub child : {D : Type 0} → Str → Folder D → Option D
child n [] = none
child n ((name, file _) ∷ d) = child n d
child n ((name, dir x) ∷ d) = if str_eq name n then some x else child n d

abbrev in_place : {D : Type 0} → Str → D → Entry D → Entry D
in_place n x (name, file t) = (name, file t)
in_place n x (name, dir y) = if str_eq name n then (name, dir x) else (name, dir y)

abbrev pub set_dir : {D : Type 0} → Str → D → Folder D → Folder D
set_dir n x = map (in_place n x)

abbrev is_dir_of : {D : Type 0} → Str → Entry D → Bool
is_dir_of n (name, file _) = false
is_dir_of n (name, dir _) = str_eq name n

abbrev pub drop_dir : {D : Type 0} → Str → Folder D → Folder D
drop_dir n = filter (λ e. not (is_dir_of n e))

-- `create_dir_all`, one level of it, and what is done inside
unfoldable pub with_dir :
    {D R : Type 0}
    → Bool
    → Str
    → D
    → (D → D × Result StoreError R)
    → Folder D
    → Folder D × Result StoreError R
with_dir fails name fresh act d = elim (child name d) [
  | some x ↦ let r = act x in (set_dir name r.0 d, r.1)
  | none ↦
      if fails || any (is_file_named name) d
      then (d, err io)
      else (let r = act fresh in (d ++ ((name, dir r.0) ∷ []), r.1))
]

abbrev pub outer_fails : Fault → Bool
outer_fails mkdir_fails = true
outer_fails no_fault = false
outer_fails sweep_fails = false
outer_fails (preserve_fails _) = false
outer_fails (rename_fails _) = false
outer_fails remove_fails = false
outer_fails (write_fails _) = false

-- `FileStore::put` and the `put_…` that call it; `inner` says that the second of two directories
-- cannot be made
abbrev pub put_at :
    Bool → Fault → ℕ → ℕ → Slot → Str → Str → Root → Root × Result StoreError (Unit {0})
put_at inner fault pid seq (machine id) format body =
    with_dir (outer_fails fault) id [] (put_in fault pid seq format body)
put_at inner fault pid seq (group name) format body =
    with_dir (outer_fails fault) groups_dir []
      (with_dir inner name [] (put_in fault pid seq format body))
put_at inner fault pid seq fallback format body =
    with_dir (outer_fails fault) default_dir [] (put_in fault pid seq format body)

-- the identifier as the operation checks it
unfoldable pub refused : Slot → Option StoreError
unfolding valid_machine_id valid_id
refused (machine id) =
    if valid_machine_id id
    then none
    else if valid_id id
    then some (invalid_machine_id id)
    else some (invalid_id id)
refused (group name) = if valid_id name then none else some (invalid_id name)
refused fallback = none

unfoldable pub put_document :
    Bool → Fault → ℕ → ℕ → Slot → Str → Str → Root → Root × Result StoreError (Unit {0})
unfolding refused valid_format put_in with_dir
put_document inner fault pid seq slot format body root = elim (refused slot) [
  | some e ↦ (root, err e)
  | none ↦
      if valid_format format
      then put_at inner fault pid seq slot format body root
      else (root, err (invalid_format format))
]

abbrev is_nothing : {A : Type 0} → List A → Bool
is_nothing [] = true
is_nothing (_ ∷ _) = false

abbrev pub keeps_empty : Fault → Bool
keeps_empty sweep_fails = true
keeps_empty no_fault = false
keeps_empty mkdir_fails = false
keeps_empty remove_fails = false
keeps_empty (preserve_fails _) = false
keeps_empty (rename_fails _) = false
keeps_empty (write_fails _) = false

-- `let _ = fs::remove_dir(dir)`, which takes the directory away where nothing is left in it, unless
-- it fails: then the empty directory stays
abbrev pub swept :
    {D : Type 0}
    → Bool
    → Str
    → Folder (Folder D)
    → Folder D × Result StoreError Bool
    → Folder (Folder D) × Result StoreError Bool
swept keeps name d (x, ok true) =
    (if is_nothing x && not keeps then drop_dir name d else set_dir name x d, ok true)
swept keeps name d (x, ok false) = (set_dir name x d, ok false)
swept keeps name d (x, err e) = (set_dir name x d, err e)

-- `FileStore::remove`, in the directory that holds the identity's
unfoldable pub remove_from :
    {D : Type 0}
    → Fault
    → Str
    → Str
    → Folder (Folder D)
    → Folder (Folder D) × Result StoreError Bool
unfolding remove_in
remove_from fault format name d = elim (child name d) [
  | none ↦ (d, ok false)
  | some x ↦ swept (keeps_empty fault) name d (remove_in fault format x)
]

abbrev pub in_groups :
    (Inner → Inner × Result StoreError Bool) → Root → Root × Result StoreError Bool
in_groups act root = elim (child groups_dir root) [
  | none ↦ (root, ok false)
  | some x ↦ let r = act x in (set_dir groups_dir r.0 root, r.1)
]

abbrev pub remove_at : Fault → Slot → Str → Root → Root × Result StoreError Bool
remove_at fault (machine id) format root = remove_from fault format id root
remove_at fault (group name) format root = in_groups (remove_from fault format name) root
remove_at fault fallback format root = remove_from fault format default_dir root

unfoldable pub delete_document : Fault → Slot → Str → Root → Root × Result StoreError Bool
unfolding refused valid_format remove_from
delete_document fault slot format root = elim (refused slot) [
  | some e ↦ (root, err e)
  | none ↦
      if valid_format format
      then remove_at fault slot format root
      else (root, err (invalid_format format))
]
