-- ===== src/Boot/Iso/Open.antt =====
-- Opening an ISO 9660 image: the descriptors, and which name spaces it carries (`open`,
-- `detect_rock_ridge` of src/boot/iso.rs).
use rescriptum.Prelude.{
  ℕ, zero, suc, ◌+◌, ◌*◌, min, Bool, true, false, not, ◌&&◌, ◌||◌, List, [], ◌∷◌, Option, none,
  some, Bytes, Str, codes, ◌==◌, ltb, if◌then◌else◌, length, take, drop, get_or, get_or_else,
  is_some, str_eq, trim,
}
use rescriptum.Prelude.Result.{Result, ok, err}
use rescriptum.Prelude.Utf8.{from_utf8_lossy}
use rescriptum.Boot.Iso.{
  Extent, Entry, sector, record_header, read_exact, both_endian32, parse_record, system_at, walk_in,
}
use rescriptum.Boot.Iso.Names.{Susp, susp_entries}

pub record Trees : Type 0 where
  pub rock_ridge : Bool
  pub joliet : Bool
  pub udf : Bool

pub record Iso : Type 0 where
  pub root : Extent
  pub joliet_root : Option Extent
  pub trees : Trees
  pub volume_id : Str
  pub declared_size : ℕ
  pub susp_skip : ℕ
  pub pvd_at : ℕ
  pub svd_at : Option ℕ

pub data IsoError : Type 0 where
  no_primary malformed_root : IsoError

abbrev pub first_descriptor : ℕ
first_descriptor = 16 * sector

-- a window of three bytes is one of the escape sequences
abbrev is_escape : ℕ → ℕ → ℕ → Bool
is_escape a b c = a == b'%' && b == b'/' && (c == b'@' || c == b'C' || c == b'E')

abbrev has_escape : Bytes → Bool
has_escape [] = false
has_escape (a ∷ []) = false
has_escape (a ∷ b ∷ []) = false
has_escape (a ∷ b ∷ c ∷ s) = is_escape a b c || has_escape (b ∷ c ∷ s)

unfoldable pub is_joliet : Bytes → Bool
is_joliet bytes = has_escape (take 32 (drop 88 bytes))

-- what the scan of the descriptors has found
pub record Scan : Type 0 where
  pub primary : Option Bytes
  pub supplementary : Option Bytes
  pub pvd_at : ℕ
  pub svd_at : Option ℕ
  pub udf : Bool

abbrev nothing_yet : Scan
nothing_yet = record {
  primary = none;
  supplementary = none;
  pvd_at = first_descriptor;
  svd_at = none;
  udf = false;
}

pub data Next : Type 0 where
  go_on stop : Scan → Next

-- one sector
unfoldable pub look_at : Bytes → ℕ → Scan → Next
unfolding is_joliet
look_at bytes at scan =
    let tag = take 5 (drop 1 bytes) in
    let kind = get_or bytes 0 0 in
    if str_eq tag (codes "NSR02") || str_eq tag (codes "NSR03")
    then go_on (record scan { udf = true })
    else if str_eq tag (codes "BEA01") || str_eq tag (codes "TEA01")
    then go_on scan
    else if not (str_eq tag (codes "CD001"))
    then stop scan
    else if kind == 1
    then go_on (record scan { primary = some bytes; pvd_at = at })
    else if kind == 2 && not (is_some scan.supplementary) && is_joliet bytes
    then go_on (record scan { supplementary = some bytes; svd_at = some at })
    else if kind == 255
    then stop scan
    else go_on scan

-- the loop, with the sectors that are left to read
unfoldable pub scan_loop : ℕ → Bytes → ℕ → Scan → Scan
unfolding look_at read_exact
scan_loop zero image index scan = scan
scan_loop (suc left) image index scan =
    let at = first_descriptor + index * sector in
    elim (read_exact image at sector) [
      | none ↦ scan
      | some bytes ↦ elim (look_at bytes at scan) [
        | stop s ↦ s
        | go_on s ↦ scan_loop left image (index + 1) s
      ]
    ]

abbrev root_of : Bytes → Option Entry
root_of descriptor = parse_record (take 34 (drop 156 descriptor)) 0

-- the last `SP` entry of enough data, by its skip length
abbrev sp_skip : Option ℕ → List Susp → Option ℕ
sp_skip found [] = found
sp_skip found (e ∷ es) =
    if e.first == b'S' && e.second == b'P' && not (ltb (length e.bytes) 3)
    then sp_skip (some (get_or e.bytes 2 0)) es
    else sp_skip found es

unfoldable pub detect_rock_ridge : Bytes → Extent → Option ℕ
unfolding read_exact susp_entries
detect_rock_ridge image root = elim (read_exact image root.offset (min root.size sector)) [
  | none ↦ none
  | some buffer ↦
      let len = get_or buffer 0 0 in
      let at = system_at (get_or buffer 32 0) in
      if ltb (length buffer) record_header || ltb len record_header || ltb (length buffer) len
      then none
      else sp_skip none (susp_entries (drop (min at len) (take len buffer)) 0)
]

abbrev described : Bytes → Scan → Bytes → Extent → Iso
described image scan pvd root = record {
  root = root;
  joliet_root = elim scan.supplementary [
    | none ↦ none
    | some svd ↦ elim (root_of svd) [ none ↦ none | some e ↦ some e.extent ]
  ];
  trees = record {
    rock_ridge = is_some (detect_rock_ridge image root);
    joliet = is_some scan.supplementary;
    udf = scan.udf;
  };
  volume_id = trim (from_utf8_lossy (take 32 (drop 40 pvd)));
  declared_size = get_or_else (both_endian32 (take 8 (drop 80 pvd))) 0 * sector;
  susp_skip = get_or_else (detect_rock_ridge image root) 0;
  pvd_at = scan.pvd_at;
  svd_at = scan.svd_at;
}

unfoldable pub open_image : Bytes → Result IsoError Iso
unfolding scan_loop detect_rock_ridge parse_record both_endian32 from_utf8_lossy
open_image image =
    let scan = scan_loop 32 image 0 nothing_yet in
    elim scan.primary [
      | none ↦ err no_primary
      | some pvd ↦ elim (root_of pvd) [
        | none ↦ err malformed_root
        | some e ↦ ok (described image scan pvd e.extent)
      ]
    ]

unfoldable pub locate : Bytes → Iso → Str → Option (Option Extent)
unfolding walk_in
locate image iso path = walk_in image iso.susp_skip iso.root path false

unfoldable pub locate_joliet : Bytes → Iso → Str → Option (Option Extent)
unfolding walk_in
locate_joliet image iso path = elim iso.joliet_root [
  | none ↦ some none
  | some root ↦ walk_in image iso.susp_skip root path true
]

-- `read`, of at most `limit` bytes
unfoldable pub read_file : Bytes → Iso → Str → ℕ → Option (Option Bytes)
unfolding locate read_exact
read_file image iso path limit = elim (locate image iso path) [
  | none ↦ none
  | some none ↦ some none
  | some (some extent) ↦
      if extent.directory
      then some none
      else elim (read_exact image extent.offset (min extent.size limit)) [
        | none ↦ none
        | some b ↦ some (some b)
      ]
]

abbrev is_file : Option (Option Extent) → Bool
is_file none = false
is_file (some none) = false
is_file (some (some e)) = not e.directory

unfoldable pub has : Bytes → Iso → Str → Bool
unfolding locate locate_joliet
has image iso path = is_file (locate image iso path) || is_file (locate_joliet image iso path)
