-- ===== src/Store/File.antt =====
-- The documents of one identity's directory (src/store/file.rs): which file answers for a format,
-- and how one is written and removed. A directory is a list of named entries in the order in
-- which it is read; `D` is what stands for a directory inside it. A file holds its text, or
-- nothing where it cannot be read as text.
pub mod Sorted
pub mod Served
pub mod Names
pub mod Matching
pub mod Put
pub mod Single
pub mod Serves
pub mod Remove
use rescriptum.Prelude.{
  ℕ, decimal, Bool, true, false, not, ◌&&◌, List, [], ◌∷◌, ◌++◌, map, filter, filter_map, any, find,
  Option, none, some, Str, codes, ◌==◌, if◌then◌else◌, str_eq, str_ltb, to_ascii_lowercase,
}
use rescriptum.Prelude.Result.{Result, ok, err}
use rescriptum.Format.{for_extension, canonical_stem}
use rescriptum.Select.Build.Groups.{sort_by}
use rescriptum.Admin.Write.{valid_format}

pub data Node (D : Type 0) : Type 0 where
  file : Option Str → Node D
  dir : D → Node D

abbrev pub Entry : Type 0 → Type 0
Entry D = Str × Node D

abbrev pub Folder : Type 0 → Type 0
Folder D = List (Entry D)

-- `rsplit_once('.')`
unfoldable pub rsplit_dot : Str → Option (Str × Str)
rsplit_dot [] = none
rsplit_dot (c ∷ s) = elim (rsplit_dot s) [
  | some (a, b) ↦ some (c ∷ a, b)
  | none ↦ if c == b'.' then some ([], s) else none
]

-- `Path::extension` and `Path::file_stem` of a name other than `..`
unfoldable pub extension : Str → Option Str
unfolding rsplit_dot
extension name = elim (rsplit_dot name) [
  | none ↦ none
  | some ([], _) ↦ none
  | some (_ ∷ _, ext) ↦ some ext
]

unfoldable pub file_stem : Str → Str
unfolding rsplit_dot
file_stem name = elim (rsplit_dot name) [
  | none ↦ name
  | some ([], _) ↦ name
  | some (c ∷ stem, _) ↦ c ∷ stem
]

unfoldable pub with_extension : Str → Str → Str
unfolding file_stem
with_extension name ext = file_stem name ++ (b'.' ∷ ext)

unfoldable pub is_visible : Str → Bool
is_visible [] = true
is_visible (c ∷ _) = not (c == b'.')

unfoldable pub servable : Str → Option Str
unfolding extension for_extension
servable name = elim (extension name) [
  | none ↦ none
  | some raw ↦
      let ext = to_ascii_lowercase raw in
      elim (for_extension ext) [ none ↦ none | some _ ↦ some ext ]
]

-- a file that can be served: its name, its format and its text
pub record Candidate : Type 0 where
  pub name : Str
  pub format : Str
  pub text : Option Str

unfoldable pub candidate_of : {D : Type 0} → Entry D → Option Candidate
unfolding is_visible servable
candidate_of (name, dir _) = none
candidate_of (name, file text) =
    if is_visible name
    then elim (servable name) [
      | none ↦ none
      | some format ↦ some (record { name = name; format = format; text = text })
    ]
    else none

abbrev pub by_name : List Candidate → List Candidate
by_name = sort_by (λ a b. str_ltb a.name b.name)

pub record Found : Type 0 where
  pub format : Str
  pub body : Str
  pub name : Str

-- what is reported: an unreadable file, or a second document of one format and the first
pub data Trouble : Type 0 where
  unreadable : Str → Trouble
  already : Str → Str → Trouble

-- the loop of `documents_in`
unfoldable pub collect : List Found → List Candidate → List Found × List Trouble
collect found [] = (found, [])
collect found (c ∷ cs) = elim (find (λ f. str_eq f.format c.format) found) [
  | some first ↦ let rest = collect found cs in (rest.0, already c.name first.name ∷ rest.1)
  | none ↦ elim c.text [
    | none ↦ let rest = collect found cs in (rest.0, unreadable c.name ∷ rest.1)
    | some body ↦
        collect (found ++ (record { format = c.format; body = body; name = c.name } ∷ [])) cs
  ]
]

unfoldable pub documents_in : {D : Type 0} → Folder D → List Found × List Trouble
unfolding collect candidate_of
documents_in d = collect [] (by_name (filter_map candidate_of d))

abbrev pub first_name : List Candidate → Option Str
first_name [] = none
first_name (c ∷ _) = some c.name

unfoldable pub existing : {D : Type 0} → Folder D → Str → Option Str
unfolding candidate_of
existing d format =
    first_name (by_name (filter (λ c. str_eq c.format format) (filter_map candidate_of d)))

abbrev pub is_file_named : {D : Type 0} → Str → Entry D → Bool
is_file_named n (name, file _) = str_eq name n
is_file_named n (name, dir _) = false

abbrev pub is_dir_named : {D : Type 0} → Str → Entry D → Bool
is_dir_named n (name, file _) = false
is_dir_named n (name, dir _) = str_eq name n

-- `fs::write` where no directory has the name, and the target of a `rename`
abbrev pub over : {D : Type 0} → Str → Option Str → Entry D → Entry D
over n text (name, dir d) = (name, dir d)
over n text (name, file old) = if str_eq name n then (name, file text) else (name, file old)

abbrev pub set_file : {D : Type 0} → Str → Option Str → Folder D → Folder D
set_file n text d =
    if any (is_file_named n) d then map (over n text) d else d ++ ((n, file text) ∷ [])

-- `fs::remove_file`
abbrev pub remove_file : {D : Type 0} → Str → Folder D → Folder D
remove_file n = filter (λ e. not (is_file_named n e))

-- What the file system refuses, if anything. A failed write may leave a file behind, and where the
-- mode cannot be carried over or the rename fails, `true` says that the temporary file cannot be
-- taken away either. `sweep_fails` is an empty directory that cannot be removed.
pub data Fault : Type 0 where
  no_fault mkdir_fails remove_fails sweep_fails : Fault
  preserve_fails rename_fails : Bool → Fault
  write_fails : Option (Option Str) → Fault

pub data StoreError : Type 0 where
  invalid_id invalid_machine_id invalid_format : Str → StoreError
  io : StoreError

abbrev pub leave : {D : Type 0} → Str → Option (Option Str) → Folder D → Folder D
leave tmp none d = d
leave tmp (some text) d = set_file tmp text d

-- `let _ = fs::remove_file(&tmp)`, which may fail
abbrev pub abandon : {D : Type 0} → Bool → Str → Folder D → Folder D
abandon true tmp d = d
abandon false tmp d = remove_file tmp d

-- the rename, of a file that holds `body`
abbrev pub moved :
    {D : Type 0} → Str → Str → Str → Folder D → Folder D × Result StoreError (Unit {0})
moved tmp name body d =
    if any (is_dir_named name) d
    then (remove_file tmp d, err io)
    else (set_file name (some body) (remove_file tmp d), ok tt)

-- `write_atomic` once the temporary name is chosen
abbrev pub attempt :
    {D : Type 0} → Fault → Str → Str → Str → Folder D → Folder D × Result StoreError (Unit {0})
attempt (write_fails left) tmp name body d = (leave tmp left d, err io)
attempt (preserve_fails stays) tmp name body d =
    (abandon stays tmp (set_file tmp (some body) d), err io)
attempt (rename_fails stays) tmp name body d =
    (abandon stays tmp (set_file tmp (some body) d), err io)
attempt no_fault tmp name body d = moved tmp name body (set_file tmp (some body) d)
attempt mkdir_fails tmp name body d = moved tmp name body (set_file tmp (some body) d)
attempt remove_fails tmp name body d = moved tmp name body (set_file tmp (some body) d)
attempt sweep_fails tmp name body d = moved tmp name body (set_file tmp (some body) d)

-- the extension of a temporary name: the process and the count of its writes
unfoldable pub tmp_extension : ℕ → ℕ → Str
tmp_extension pid seq = codes "tmp." ++ (decimal pid ++ (b'.' ∷ decimal seq))

unfoldable pub write_atomic :
    {D : Type 0} → Fault → ℕ → ℕ → Str → Str → Folder D → Folder D × Result StoreError (Unit {0})
unfolding with_extension tmp_extension
write_atomic fault pid seq name body d =
    let tmp = with_extension name (tmp_extension pid seq) in
    if any (is_dir_named tmp) d then (d, err io) else attempt fault tmp name body d

abbrev pub canonical_name : Str → Str
canonical_name format = canonical_stem format ++ (b'.' ∷ format)

-- where a document of the format is written
unfoldable pub target : {D : Type 0} → Folder D → Str → Str
unfolding existing canonical_stem
target d format = elim (existing d format) [ none ↦ canonical_name format | some name ↦ name ]

-- `put`, on the identity's directory
unfoldable pub put_in :
    {D : Type 0} → Fault → ℕ → ℕ → Str → Str → Folder D → Folder D × Result StoreError (Unit {0})
unfolding write_atomic target
put_in fault pid seq format body d = write_atomic fault pid seq (target d format) body d

-- `remove_if_present` of a file that is there
abbrev pub removed : {D : Type 0} → Fault → Str → Folder D → Folder D × Result StoreError Bool
removed remove_fails name d = (d, err io)
removed no_fault name d = (remove_file name d, ok true)
removed mkdir_fails name d = (remove_file name d, ok true)
removed sweep_fails name d = (remove_file name d, ok true)
removed (preserve_fails _) name d = (remove_file name d, ok true)
removed (rename_fails _) name d = (remove_file name d, ok true)
removed (write_fails _) name d = (remove_file name d, ok true)

-- `remove`, on the identity's directory
unfoldable pub remove_in : {D : Type 0} → Fault → Str → Folder D → Folder D × Result StoreError Bool
unfolding existing
remove_in fault format d = elim (existing d format) [
  | none ↦ (d, ok false)
  | some name ↦ removed fault name d
]
