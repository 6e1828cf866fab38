-- ===== src/Boot/Iso.antt =====
-- Reading an ISO 9660 image (src/boot/iso.rs): the records of a directory, the paths they make and
-- the descriptors that lead to them. An image is the list of its bytes.
pub mod Names
pub mod Open
pub mod Ends
use rescriptum.Prelude.{
  ℕ, zero, suc, ◌+◌, ◌-◌, ◌*◌, ◌/◌, ◌%◌, min, Bool, true, false, not, ◌&&◌, ◌||◌, List, [], ◌∷◌,
  ◌++◌, Option, none, some, Bytes, Str, codes, ◌==◌, ltb, leb, if◌then◌else◌, length, take, drop,
  get_or, str_eq, to_ascii_lowercase, trim_end_matches, trim_matches, split, split_once, is_empty,
  any, filter, find,
}
use rescriptum.Boot.Iso.Names.{from_utf16_lossy, iso_name, ucs2_name, rock_ridge_name}

abbrev pub sector : ℕ
sector = 2048

abbrev pub record_header : ℕ
record_header = 33

abbrev max_depth : ℕ
max_depth = 16

abbrev max_directory : ℕ
max_directory = 16 * 1024 * 1024

pub record Extent : Type 0 where
  pub offset : ℕ
  pub size : ℕ
  pub directory : Bool

pub record Entry : Type 0 where
  pub name : Str
  pub rock_ridge_name : Option Str
  pub joliet_name : Option Str
  pub extent : Extent
  pub special : Bool

-- `seek` and `read_exact`: the bytes, or an error where the image ends before
unfoldable pub read_exact : Bytes → ℕ → ℕ → Option Bytes
read_exact image offset size =
    if size == 0 || leb (offset + size) (length image)
    then some (take size (drop offset image))
    else none

-- the number that is written in both byte orders, where they agree
unfoldable pub both_endian32 : Bytes → Option ℕ
both_endian32 bytes =
    let b = get_or bytes in
    let little = b 0 0 + b 1 0 * 256 + b 2 0 * 65536 + b 3 0 * 16777216 in
    let big = b 4 0 * 16777216 + b 5 0 * 65536 + b 6 0 * 256 + b 7 0 in
    if ltb (length bytes) 8 then none else if little == big then some little else none

abbrev pub is_special : Bytes → Bool
is_special [] = false
is_special (b ∷ []) = b == 0 || b == 1
is_special (_ ∷ _ ∷ _) = false

-- where the system use area starts
abbrev pub system_at : ℕ → ℕ
system_at name_len =
    if name_len % 2 == 0 then record_header + name_len + 1 else record_header + name_len

abbrev pub built : Bytes → ℕ → Bytes → ℕ → ℕ → Entry
built bytes susp_skip raw lba size = record {
  name = iso_name raw;
  rock_ridge_name = rock_ridge_name (drop (system_at (get_or bytes 32 0)) bytes) susp_skip;
  joliet_name = ucs2_name raw;
  extent = record {
    offset = lba * sector;
    size = size;
    directory = get_or bytes 25 0 / 2 % 2 == 1;
  };
  special = is_special raw;
}

-- `record`
unfoldable pub parse_record : Bytes → ℕ → Option Entry
unfolding both_endian32 iso_name ucs2_name rock_ridge_name
parse_record bytes susp_skip =
    let name_len = get_or bytes 32 0 in
    if ltb (length bytes) record_header || ltb (length bytes) (record_header + name_len)
    then none
    else elim (both_endian32 (take 8 (drop 2 bytes))) [
      | none ↦ none
      | some lba ↦ elim (both_endian32 (take 8 (drop 10 bytes))) [
        | none ↦ none
        | some size ↦
            some (built bytes susp_skip (take name_len (drop record_header bytes)) lba size)
      ]
    ]

-- a record's entry in front of the others, unless it is `.` or `..`
abbrev pub with_entry : Option Entry → Option (List Entry) → Option (List Entry)
with_entry entry none = none
with_entry none (some rest) = some rest
with_entry (some entry) (some rest) = if entry.special then some rest else some (entry ∷ rest)

-- The loop of `entries`; `none` means that the fuel ran out. Every round moves on in the buffer.
unfoldable pub records : ℕ → Bytes → ℕ → ℕ → Option (List Entry)
unfolding parse_record
records zero buffer susp_skip at = none
records (suc fuel) buffer susp_skip at =
    let len = get_or buffer at 0 in
    let next_sector = records fuel buffer susp_skip ((at / sector + 1) * sector) in
    let next = records fuel buffer susp_skip (at + len) in
    if ltb (length buffer) (at + record_header)
    then some []
    else if len == 0
    then next_sector
    else if ltb len record_header || ltb (length buffer) (at + len)
    then some []
    else with_entry (parse_record (take len (drop at buffer)) susp_skip) next

-- `entries`: `none` is an error of the read
unfoldable pub entries : Bytes → ℕ → Extent → Option (List Entry)
unfolding records read_exact
entries image susp_skip directory =
    if not directory.directory || directory.size == 0 || ltb max_directory directory.size
    then some []
    else elim (read_exact image directory.offset directory.size) [
      | none ↦ none
      | some buffer ↦ records (length buffer + 1) buffer susp_skip 0
    ]

abbrev pub is_name : Option Str → Str → Bool
is_name none wanted = false
is_name (some name) wanted = str_eq name wanted

abbrev pub answers_to : Bool → Str → Entry → Bool
answers_to true wanted entry = is_name entry.joliet_name wanted
answers_to false wanted entry = is_name entry.rock_ridge_name wanted || str_eq entry.name wanted

unfoldable pub entry_in : Bytes → ℕ → Extent → Str → Bool → Option (Option Extent)
unfolding entries
entry_in image susp_skip directory name joliet =
    let wanted = to_ascii_lowercase name in
    elim (entries image susp_skip directory) [
      | none ↦ none
      | some found ↦ elim (find (answers_to joliet wanted) found) [
        | none ↦ some none
        | some e ↦ some (some e.extent)
      ]
    ]

abbrev pub segments_of : Str → List Str
segments_of path =
    filter (λ s. not (is_empty s) && not (str_eq s (codes ".")))
      (split (λ c. c == b'/') (trim_matches (λ c. c == b'/') path))

-- the loop of `walk_in`
abbrev pub descend : Bytes → ℕ → Bool → List Str → Extent → Option (Option Extent)
descend image susp_skip joliet [] current = some (some current)
descend image susp_skip joliet (segment ∷ segments) current =
    if not current.directory
    then some none
    else elim (entry_in image susp_skip current segment joliet) [
      | none ↦ none
      | some none ↦ some none
      | some (some found) ↦ descend image susp_skip joliet segments found
    ]

unfoldable pub walk_in : Bytes → ℕ → Extent → Str → Bool → Option (Option Extent)
unfolding entry_in
walk_in image susp_skip root path joliet =
    let segments = segments_of path in
    if ltb max_depth (length segments) || any (λ s. str_eq s (codes "..")) segments
    then some none
    else descend image susp_skip joliet segments root
