-- ===== src/Boot/Patch/Addition.antt =====
-- Planning the addition of a file to an image (`add_file`, `slack_in` of src/boot/patch.rs).
use rescriptum.Prelude.{
  ℕ, zero, suc, ◌+◌, ◌-◌, ◌*◌, ◌/◌, ◌%◌, true, not, ◌&&◌, ◌||◌, List, [], ◌∷◌, ◌++◌, Option, none,
  some, Bytes, Str, ◌==◌, ltb, leb, if◌then◌else◌, length, take, drop, replicate, get_or, ◌^◌,
}
use rescriptum.Prelude.Result.{Result, ok, err}
use rescriptum.Boot.Iso.{Extent, sector, read_exact}
use rescriptum.Boot.Iso.Open.{Iso, open_image}
use rescriptum.Boot.Patch.{Overwrite, Plan}
use rescriptum.Boot.Patch.Build.{both_endian32, iso9660_record, joliet_record}

pub data PlanError : Type 0 where
  not_an_image has_udf no_long_names not_sectors too_large unreadable overruns no_slack : PlanError

-- The end of the records of a sector, or none where one runs past it; a sector has 2048 bytes and
-- every round moves on, so as many rounds as bytes suffice.
unfoldable pub used_in : ℕ → Bytes → ℕ → Option ℕ
used_in zero chunk used = some used
used_in (suc fuel) chunk used =
    let len = get_or chunk used 0 in
    let next = used_in fuel chunk (used + len) in
    if ltb (length chunk) (used + 33)
    then some used
    else if len == 0
    then some used
    else if ltb (length chunk) (used + len)
    then none
    else next

-- the loop over the sectors of the directory, with the place of the present one
unfoldable pub slack_loop : ℕ → Bytes → ℕ → ℕ → Result PlanError ℕ
unfolding used_in
slack_loop zero rest at need = err no_slack
slack_loop (suc fuel) [] at need = err no_slack
slack_loop (suc fuel) (b ∷ rest) at need =
    let chunk = take sector (b ∷ rest) in
    elim (used_in (length chunk + 1) chunk 0) [
      | none ↦ err overruns
      | some used ↦
          if leb need (length chunk - used)
          then ok (at + used)
          else slack_loop fuel (drop sector (b ∷ rest)) (at + sector) need
    ]

unfoldable pub slack_in : Bytes → Extent → ℕ → Result PlanError ℕ
unfolding slack_loop read_exact
slack_in image directory need =
    if not directory.directory || directory.size == 0
    then err unreadable
    else elim (read_exact image directory.offset directory.size) [
      | none ↦ err unreadable
      | some extent ↦ slack_loop (length extent) extent directory.offset need
    ]

-- an overwrite of a record where there is room
abbrev placed : Bytes → Bytes → Extent → Result PlanError (List Overwrite)
placed image record_bytes directory = elim (slack_in image directory (length record_bytes)) [
  | err e ↦ err e
  | ok at ↦ ok (record { at = at; bytes = record_bytes } ∷ [])
]

abbrev iso_overwrites : Bytes → Iso → Str → ℕ → ℕ → Result PlanError (List Overwrite)
iso_overwrites image iso name lba size =
    if iso.trees.rock_ridge
    then placed image (iso9660_record name lba size true iso.susp_skip) iso.root
    else ok []

abbrev joliet_overwrites : Bytes → Iso → Str → ℕ → ℕ → Result PlanError (List Overwrite)
joliet_overwrites image iso name lba size = elim iso.joliet_root [
  | none ↦ ok []
  | some root ↦ placed image (joliet_record name lba size) root
]

-- the volume space size in the descriptors
abbrev size_overwrites : Iso → ℕ → List Overwrite
size_overwrites iso blocks =
    record { at = iso.pvd_at + 80; bytes = both_endian32 blocks } ∷ elim iso.svd_at [
      | none ↦ []
      | some at ↦ record { at = at + 80; bytes = both_endian32 blocks } ∷ []
    ]

abbrev pub sectors_of : ℕ → ℕ
sectors_of n = (n + (sector - 1)) / sector

abbrev planned : Str → Bytes → Str → Bytes → Iso → List Overwrite → List Overwrite → Plan
planned path image name content iso first second = record {
  source = path;
  source_len = length image;
  overwrites =
      first
      ++ (second
          ++ size_overwrites iso ((length image / sector + sectors_of (length content)) % 2 ^ 32));
  tail = content ++ replicate (sectors_of (length content) * sector - length content) 0;
  added = name;
}

abbrev with_records : Str → Bytes → Str → Bytes → Iso → Result PlanError Plan
with_records path image name content iso =
    let lba = length image / sector % 2 ^ 32 in
    elim (iso_overwrites image iso name lba (length content)) [
      | err e ↦ err e
      | ok first ↦ elim (joliet_overwrites image iso name lba (length content)) [
        | err e ↦ err e
        | ok second ↦ ok (planned path image name content iso first second)
      ]
    ]

unfoldable pub add_file : Str → Bytes → Str → Bytes → Result PlanError Plan
unfolding open_image slack_in iso9660_record joliet_record both_endian32
add_file path image name content = elim (open_image image) [
  | err _ ↦ err not_an_image
  | ok iso ↦
      if iso.trees.udf
      then err has_udf
      else if not iso.trees.rock_ridge && not iso.trees.joliet
      then err no_long_names
      else if length image == 0 || not (length image % sector == 0)
      then err not_sectors
      else if ltb (sector * 64) (length content)
      then err too_large
      else with_records path image name content iso
]
