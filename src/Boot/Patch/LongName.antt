-- ===== src/Boot/Patch/LongName.antt =====
-- The long name that src/boot/patch.rs gives a record is the one that src/boot/iso.rs reads.
use rescriptum.Prelude.{
  ℕ, zero, suc, ◌+◌, ◌%◌, ◌^◌, ◌≤◌, ◌<◌, min, true, false, [], ◌∷◌, ◌++◌, none, some, Bytes, Str,
  ◌==◌, ltb, if◌then◌else◌, length, take, drop, replicate, get_or, ◌≡◌, refl, ap, ◌∙◌, arith,
  length-append, take-append_past, drop-append_past, Bool-cases, inl, inr, append_assoc, all,
  to_ascii_lowercase, is_empty, length-replicate,
}
use rescriptum.Prelude.Utf8.{encode}
use rescriptum.Prelude.Utf8.Ascii.{is_ascii, encode-ascii, from_utf8_lossy-ascii}
use rescriptum.Boot.Iso.{Entry, parse_record}
use rescriptum.Boot.Iso.Names.{rock_ridge_name, susp_entries, susp_loop, nm_loop, finished, Susp}
use rescriptum.Boot.Patch.Build.{nm_entry, iso9660_record, mangle, record_body, make_record}
use rescriptum.Boot.Patch.ShortName.{length-encode-mangle}
use rescriptum.Boot.Patch.ReadBack.{padding_of, read_back, make-raw, parse_record-make_record}

abbrev nm : Bytes → Susp
nm name = record { first = b'N'; second = b'M'; bytes = 0 ∷ name }

-- too little is left for an entry
susp_loop_short : (fuel : ℕ) (area : Bytes) → length area < 4 → susp_loop fuel area ≡ []
susp_loop_short zero area h = refl
susp_loop_short (suc fuel) area h =
    let few : ltb (length area) 4 ≡ true = ground (arith, h) in rw few refl

-- one round on an area of which the first entry is known
susp_loop_step :
    (fuel : ℕ) (area : Bytes)
    → 4 ≤ get_or area 2 0
    → get_or area 2 0 ≤ length area
    → susp_loop (suc fuel) area
      ≡ record {
        first = get_or area 0 0;
        second = get_or area 1 0;
        bytes = drop 4 (take (get_or area 2 0) area);
      }
        ∷ susp_loop fuel (drop (get_or area 2 0) area)
susp_loop_step fuel area four fits =
    let enough : ltb (length area) 4 ≡ false = ground (arith, four, fits) in
    let long : ltb (get_or area 2 0) 4 ≡ false = ground (arith, four) in
    let inside : ltb (length area) (get_or area 2 0) ≡ false = ground (arith, fits) in
    rw (enough, long, inside) refl

susp_loop-nm :
    (fuel : ℕ) (name rest : Bytes)
    → length name ≤ 250
    → length rest < 4
    → susp_loop (suc fuel) (nm_entry name ++ rest) ≡ nm name ∷ []
susp_loop-nm fuel name rest short few =
    let exact : (5 + length name) % 256 ≡ length (nm_entry name) = omega (arith, short) in
    let area = nm_entry name ++ rest in
    susp_loop_step fuel area (omega (arith, exact)) (omega (arith, exact, length-append name rest))
    ∙ ap
        (λ n.
          record { first = b'N'; second = b'M'; bytes = drop 4 (take n area) }
          ∷ susp_loop fuel (drop n area))
        exact
    ∙ ap
        (λ x.
          record { first = b'N'; second = b'M'; bytes = drop 4 x }
          ∷ susp_loop fuel (drop (length (nm_entry name)) area))
        (take-append_past (length (nm_entry name)) (nm_entry name) rest refl)
    ∙ ap (λ x. nm name ∷ x)
        (ap (susp_loop fuel) (drop-append_past (length (nm_entry name)) (nm_entry name) rest refl)
          ∙ susp_loop_short fuel rest few)

susp_entries-nm :
    (skip : ℕ) (name rest : Bytes)
    → length name ≤ 250
    → length rest < 4
    → susp_entries ((replicate skip 0 ++ nm_entry name) ++ rest) skip ≡ nm name ∷ []
unfolding susp_entries
susp_entries-nm skip name rest short few =
    let zeros = replicate skip 0 in
    let area = (zeros ++ nm_entry name) ++ rest in
    let behind = nm_entry name ++ rest in
    let all_zeros : length zeros ≡ skip = length-replicate skip 0 in
    let size : skip ≤ length area = omega (
      arith,
      all_zeros,
      length-append (zeros ++ nm_entry name) rest,
      length-append zeros (nm_entry name),
    ) in
    let start : drop (min skip (length area)) area ≡ behind =
      ap (λ n. drop n area) {x = min skip (length area)} {y = skip} (omega (arith, size))
      ∙ ap (drop skip) (append_assoc zeros (nm_entry name) rest)
      ∙ drop-append_past skip zeros behind all_zeros in
    ap (λ r. susp_loop (length r) r) start
    ∙ susp_loop-nm (suc (suc (suc (suc (length (name ++ rest)))))) name rest short few

nm_loop-nm :
    (name : Str)
    → all is_ascii name ≡ true
    → is_empty name ≡ false
    → nm_loop [] (nm name ∷ []) ≡ some (to_ascii_lowercase name)
unfolding nm_loop
nm_loop-nm name ascii something =
    ap finished (from_utf8_lossy-ascii name ascii)
    ∙ ap (λ b. if b then none else some (to_ascii_lowercase name)) something

rock_ridge_name-nm :
    (skip : ℕ) (name : Str) (rest : Bytes)
    → all is_ascii name ≡ true
    → is_empty name ≡ false
    → length name ≤ 250
    → length rest < 4
    → rock_ridge_name ((replicate skip 0 ++ nm_entry name) ++ rest) skip
      ≡ some (to_ascii_lowercase name)
unfolding rock_ridge_name
rock_ridge_name-nm skip name rest ascii something short few =
    ap (nm_loop []) (susp_entries-nm skip name rest short few) ∙ nm_loop-nm name ascii something

little_padding : (identifier system : Bytes) → length (padding_of identifier system) < 4
little_padding identifier system =
    elim (Bool-cases ((33 + length (record_body identifier system)) % 2 == 1)) [
      | inl odd ↦ rw odd (omega arith)
      | inr even ↦ rw even (omega arith)
    ]

-- what is read back of a record with a long name
abbrev pub long_read : Str → ℕ → ℕ → ℕ → Entry
long_read name lba size skip =
    read_back (encode (mangle name)) (replicate skip 0 ++ nm_entry (encode name)) lba size skip

pub parse_record-long :
    (name : Str) (lba size skip : ℕ)
    → lba < 2 ^ 32
    → size < 2 ^ 32
    → parse_record (iso9660_record name lba size true skip) skip
      ≡ some (long_read name lba size skip)
unfolding iso9660_record
parse_record-long name lba size skip lba_fits size_fits =
    parse_record-make_record (encode (mangle name)) (replicate skip 0 ++ nm_entry (encode name)) lba
      size skip (length-encode-mangle name) lba_fits size_fits

pub long_read-named :
    (name : Str) (lba size skip : ℕ)
    → all is_ascii name ≡ true
    → is_empty name ≡ false
    → length name ≤ 250
    → (long_read name lba size skip).rock_ridge_name ≡ some (to_ascii_lowercase name)
long_read-named name lba size skip ascii something short =
    let identifier = encode (mangle name) in
    ap
      (λ b.
        rock_ridge_name
          ((replicate skip 0 ++ nm_entry b)
            ++ padding_of identifier (replicate skip 0 ++ nm_entry b))
          skip)
      (encode-ascii name ascii)
    ∙ rock_ridge_name-nm skip name (padding_of identifier (replicate skip 0 ++ nm_entry name)) ascii
        something short (little_padding identifier (replicate skip 0 ++ nm_entry name))

pub length-make_record :
    (identifier system : Bytes) (lba size : ℕ)
    → length (make_record identifier lba size system)
      ≡ 33 + length (record_body identifier system) + length (padding_of identifier system)
length-make_record identifier system lba size =
    ap length (make-raw identifier system lba size)
    ∙ omega (arith, length-append (record_body identifier system) (padding_of identifier system))

-- the length of the record stands in its first byte, where it is below 256
pub first_byte :
    (identifier system rest : Bytes) (lba size : ℕ)
    → length (make_record identifier lba size system) < 256
    → get_or (make_record identifier lba size system ++ rest) 0 0
      ≡ length (make_record identifier lba size system)
first_byte identifier system rest lba size small =
    let raw = make-raw identifier system lba size in
    let size_is = length-make_record identifier system lba size in
    ap (λ b. get_or (b ++ rest) 0 0) raw ∙ omega (arith, small, size_is)
