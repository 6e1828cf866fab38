-- ===== src/Store/Snapshot.antt =====
-- What the file store reads for the selection (`snapshot` of src/store/file.rs), and the documents
-- that still lie where an earlier layout had them (`stray`, `destination`, `pending_moves`). The
-- listing of a directory never fails in the model; a path is the list of its names.
pub mod Seen
pub mod Faithful
pub mod Dirs
use rescriptum.Prelude.{
  Bool, true, false, not, ◌&&◌, ◌||◌, List, [], ◌∷◌, ◌++◌, map, filter, filter_map, any, Option,
  none, some, Str, codes, if◌then◌else◌, str_eq, str_ltb, to_ascii_lowercase, is_some, join,
}
use rescriptum.Format.{canonical_stem}
use rescriptum.Select.Listing.{MachineEntry, GroupEntry, FallbackEntry}
use rescriptum.Select.Build.Groups.{sort_by}
use rescriptum.Store.File.{
  Folder, Entry, Node, file, dir, is_visible, servable, file_stem, Found, Trouble, documents_in,
  canonical_name,
}
use rescriptum.Store.Layout.{Leaf, Inner, Root, groups_dir, default_dir, eq_ignore_ascii_case}

abbrev pub Names : Type 0
Names = List Str

-- a document in the place of the earlier layout, and where it belongs
pub record Move : Type 0 where
  pub from : Names
  pub to : Names

unfoldable pub destination : Names → Str → Option Names
unfolding servable file_stem canonical_stem
destination parent name = elim (servable name) [
  | none ↦ none
  | some format ↦ some (parent ++ (file_stem name ∷ canonical_name format ∷ []))
]

-- what `snapshot` reports: of a directory of documents, or a stray one with its destination
pub data Note : Type 0 where
  in_directory : Names → Trouble → Note
  stray : Names → Option Names → Note

abbrev is_stray : {D : Type 0} → Entry D → Bool
is_stray (name, dir _) = false
is_stray (name, file _) = is_visible name && is_some (servable name)

abbrev note_stray : {D : Type 0} → Names → Entry D → Note
note_stray parent (name, _) = stray (parent ++ (name ∷ [])) (destination parent name)

unfoldable pub strays : {D : Type 0} → Names → Folder D → List Note
unfolding is_visible servable destination
strays parent d = map (note_stray parent) (filter is_stray d)

abbrev move_of : {D : Type 0} → Names → Entry D → Option Move
move_of parent (name, dir _) = none
move_of parent (name, file _) =
    if is_visible name
    then elim (destination parent name) [
      | none ↦ none
      | some to ↦ some (record { from = parent ++ (name ∷ []); to = to })
    ]
    else none

abbrev path_ltb : Names → Names → Bool
path_ltb [] [] = false
path_ltb [] (y ∷ ys) = true
path_ltb (x ∷ xs) [] = false
path_ltb (x ∷ xs) (y ∷ ys) = str_ltb x y || (str_eq x y && path_ltb xs ys)

-- the two directories that an earlier layout kept documents in
unfoldable pub pending_moves : Root → Option Inner → List Move
unfolding is_visible destination
pending_moves root groups =
    sort_by (λ a b. path_ltb a.from b.from)
      (filter_map (move_of []) root
        ++ elim groups [ none ↦ [] | some d ↦ filter_map (move_of (groups_dir ∷ [])) d ])

-- the visible directories of one, by name
abbrev visible_dir : {D : Type 0} → Entry D → Option (Str × D)
visible_dir (name, file _) = none
visible_dir (name, dir d) = if is_visible name then some (name, d) else none

abbrev by_dir_name : {D : Type 0} → List (Str × D) → List (Str × D)
by_dir_name = sort_by (λ a b. str_ltb a.0 b.0)

unfoldable pub identities : {D : Type 0} → Folder D → List (Str × D)
unfolding is_visible
identities d = by_dir_name (filter_map visible_dir d)

abbrev keeps_groups : {D : Type 0} → Str × D → Bool
keeps_groups (name, _) = eq_ignore_ascii_case name groups_dir

abbrev keeps_fallbacks : {D : Type 0} → Str × D → Bool
keeps_fallbacks (name, d) = not (keeps_groups (name, d)) && eq_ignore_ascii_case name default_dir

abbrev is_machine : {D : Type 0} → Str × D → Bool
is_machine e = not (keeps_groups e) && not (keeps_fallbacks e)

-- the last of several that differ in letter case
abbrev last_dir : {D : Type 0} → List (Str × D) → Option (Str × D)
last_dir [] = none
last_dir (x ∷ []) = some x
last_dir (x ∷ y ∷ xs) = last_dir (y ∷ xs)

abbrev shown_path : Names → Str
shown_path = join (codes "/")

abbrev machine_entry : Str → Found → MachineEntry
machine_entry id f = record {
  id = id;
  format = f.format;
  body = f.body;
  origin = shown_path (id ∷ f.name ∷ []);
}

abbrev group_entry : Str → Str → Found → GroupEntry
group_entry dir_name name f = record {
  name = name;
  format = f.format;
  body = f.body;
  origin = shown_path (dir_name ∷ name ∷ f.name ∷ []);
}

abbrev fallback_entry : Str → Found → FallbackEntry
fallback_entry dir_name f = record {
  format = f.format;
  body = f.body;
  origin = shown_path (dir_name ∷ f.name ∷ []);
}

-- every document of several directories
abbrev pub all_documents : {D A : Type 0} → (Str → Found → A) → List (Str × Folder D) → List A
all_documents entry [] = []
all_documents entry ((name, d) ∷ ds) = map (entry name) (documents_in d).0 ++ all_documents entry ds

abbrev notes_of : {D : Type 0} → Names → List (Str × Folder D) → List Note
notes_of parent [] = []
notes_of parent ((name, d) ∷ ds) =
    map (in_directory (parent ++ (name ∷ []))) (documents_in d).1 ++ notes_of parent ds

pub record Taken : Type 0 where
  pub machines : List MachineEntry
  pub groups : List GroupEntry
  pub fallbacks : List FallbackEntry
  pub notes : List Note

abbrev in_dir : {A : Type 0} → (Str → Inner → List A) → Option (Str × Inner) → List A
in_dir read none = []
in_dir read (some (name, d)) = read name d

-- `snapshot` of a directory that is there
unfoldable pub snapshot : Root → Taken
unfolding documents_in identities strays is_visible
snapshot root =
    let dirs = filter_map visible_dir root in
    let machines = by_dir_name (filter is_machine dirs) in
    let groups = last_dir (filter keeps_groups dirs) in
    let fallbacks = last_dir (filter keeps_fallbacks dirs) in
    let group_notes =
      in_dir (λ name d. strays (name ∷ []) d ++ notes_of (name ∷ []) (identities d)) groups in
    let fallback_notes = in_dir (λ name d. notes_of [] ((name, d) ∷ [])) fallbacks in
    record {
      machines = all_documents machine_entry machines;
      groups = in_dir (λ name d. all_documents (group_entry name) (identities d)) groups;
      fallbacks = in_dir (λ name d. map (fallback_entry name) (documents_in d).0) fallbacks;
      notes = strays [] root ++ (group_notes ++ (fallback_notes ++ notes_of [] machines));
    }
