-- ===== src/Tests/Images.antt =====
-- Inputs for digests and images.
use rescriptum.Prelude.{
  ◌*◌, ◌+◌, ◌++◌, length, replicate, false, true, is_some, [], ◌∷◌, some, Bytes, Str, codes, ◌≡◌,
  refl, take, drop, arith, to_ascii_lowercase,
}
use mathlib.Core.List.{foldl}
use rescriptum.Boot.Sha256.{new, update, finish, hex}
use rescriptum.Boot.Sha256.Compress.{compress}
use rescriptum.Boot.Sha256.Digest.{concat, finish-update}
use rescriptum.Boot.Sha256.Standard.{reference}
use rescriptum.Boot.Patch.{Plan, read_at, materialise}
use rescriptum.Boot.Patch.Window.{read_at-materialise}
use rescriptum.Boot.Patch.Build.{iso9660_record}
use rescriptum.Boot.Patch.Walk.{in_front, records-iso9660_record}
use rescriptum.Boot.Iso.{Entry, records}
use rescriptum.Boot.Iso.Ends.{records_ended}

digest_of_abc :
    hex (97 ∷ 98 ∷ 99 ∷ [])
    ≡ some (codes "ba7816bf8f01cfea414140de5dae2223b00361a396177a9cb410ff61f20015ad")
unfolding hex compress
digest_of_abc = refl

finish-update_example :
    finish (foldl update new ((97 ∷ []) ∷ (98 ∷ 99 ∷ []) ∷ []))
    ≡ some (reference (concat ((97 ∷ []) ∷ (98 ∷ 99 ∷ []) ∷ [])))
finish-update_example = finish-update ((97 ∷ []) ∷ (98 ∷ 99 ∷ []) ∷ [])

abbrev image : Bytes
image = 1 ∷ 2 ∷ 3 ∷ 4 ∷ []

abbrev plan : Plan
plan = record {
  source = codes "pve.iso";
  source_len = 4;
  overwrites = record { at = 2; bytes = 9 ∷ 8 ∷ [] } ∷ [];
  tail = 5 ∷ 6 ∷ [];
  added = codes "mode.toml";
}

read_at-materialise_example : read_at plan image 1 3 ≡ take 3 (drop 1 (materialise plan image))
read_at-materialise_example = read_at-materialise plan image 1 3 refl

abbrev name : Str
name = codes "auto-installer-mode.toml"

abbrev written : Bytes
written = iso9660_record name 700 50 true 2

records-iso9660_record_example :
    (e : Entry) × (records 3 (written ++ (written ++ [])) 2 (length written)
      ≡ in_front e (records 2 (written ++ (written ++ [])) 2 (length written + length written)))
    × (e.rock_ridge_name ≡ some (to_ascii_lowercase name))
    × (e.extent ≡ record { offset = 700 * 2048; size = 50; directory = false })
records-iso9660_record_example =
    records-iso9660_record 2 written [] name 700 50 2 refl refl (omega arith) (omega arith)
      (omega arith)

-- the length of a record of 220 characters does not fit its byte, and the walk finds nothing
long_name_lost : records 600 (iso9660_record (replicate 220 b'n') 700 50 true 0) 0 0 ≡ some []
unfolding records iso9660_record
long_name_lost = refl

records_ended_example : is_some (records 5 (0 ∷ 0 ∷ 0 ∷ []) 0 0) ≡ true
records_ended_example = records_ended 5 (0 ∷ 0 ∷ 0 ∷ []) 0 0 (omega arith) (omega arith)
