-- ===== src/Boot/Tftp/Path.antt =====
-- `resolve` of src/boot/tftp.rs: a requested name inside the root, or nothing.
pub mod Inside
use rescriptum.Prelude.{
  ℕ, Bool, true, false, ◌&&◌, ◌||◌, List, [], ◌∷◌, ◌++◌, Option, none, some, Str, ◌==◌, codes,
  if◌then◌else◌, str_eq, is_empty, split, trim_start_matches,
}

-- a path is the list of its components below `/`
abbrev pub FilePath : Type 0
FilePath = List Str

abbrev pub is_separator : ℕ → Bool
is_separator c = c == b'/' || c == b'\\'

-- the loop over the segments
unfoldable pub push_segments : FilePath → List Str → Option FilePath
push_segments path [] = some path
push_segments path (segment ∷ rest) =
    let skipped = push_segments path rest in
    let longer = push_segments (path ++ segment ∷ []) rest in
    if is_empty segment || str_eq segment (codes ".")
    then skipped
    else if str_eq segment (codes "..")
    then none
    else longer

-- `Path::starts_with`, on components
unfoldable pub starts_with : FilePath → FilePath → Bool
starts_with path [] = true
starts_with [] (r ∷ root) = false
starts_with (p ∷ path) (r ∷ root) = str_eq p r && starts_with path root

-- The file system: `canonicalize` resolves symbolic links, or fails.
pub record FileSystem : Type 0 where
  pub canonicalize : FilePath → Option FilePath
  pub is_file : FilePath → Bool

abbrev confine : FileSystem → FilePath → Option FilePath → Option FilePath
confine fs root none = none
confine fs root (some resolved) =
    if starts_with resolved root && fs.is_file resolved then some resolved else none

abbrev look_up : FileSystem → FilePath → Option FilePath → Option FilePath
look_up fs root none = none
look_up fs root (some path) = confine fs root (fs.canonicalize path)

unfoldable pub resolve : FileSystem → FilePath → Str → Option FilePath
unfolding push_segments starts_with
resolve fs root filename =
    let relative = trim_start_matches is_separator filename in
    if is_empty relative
    then none
    else look_up fs root (push_segments root (split is_separator relative))
