-- ===== src/Boot/Patch/Walk.antt =====
-- The walk of src/boot/iso.rs over the records of a directory comes upon the record that
-- src/boot/patch.rs writes, and steps over it.
use mathlib.Core.Option
use rescriptum.Prelude.{
  ℕ, suc, ◌+◌, ◌*◌, ◌/◌, ◌%◌, ◌^◌, ◌≤◌, ◌<◌, Bool, true, false, ◌||◌, [], ◌∷◌, ◌++◌, List, Option,
  none, some, Bytes, Str, ◌==◌, ltb, if◌then◌else◌, length, take, drop, replicate, get_or, ◌≡◌,
  refl, ap, ◌∙◌, arith, length-append, take-append_past, drop-append_past, Bool-cases, inl, inr,
  all, to_ascii_lowercase, is_empty, length-replicate,
}
use rescriptum.Prelude.Utf8.{encode}
use rescriptum.Prelude.Utf8.Ascii.{is_ascii, encode-ascii}
use rescriptum.Boot.Iso.{Entry, parse_record, records, is_special, with_entry}
use rescriptum.Boot.Patch.Build.{nm_entry, iso9660_record, mangle, record_body}
use rescriptum.Boot.Patch.ShortName.{encode-mangle_short}
use rescriptum.Boot.Patch.LongName.{
  long_read, long_read-named, parse_record-long, first_byte, length-make_record,
}

get_or-past : (xs ys : Bytes) → get_or (xs ++ ys) (length xs) 0 ≡ get_or ys 0 0
get_or-past [] ys = refl
get_or-past (x ∷ xs) ys = get_or-past xs ys

ordinary : (raw : Bytes) → 3 ≤ length raw → is_special raw ≡ false
ordinary [] h = absurd (omega arith)
ordinary (b ∷ []) h = absurd (omega arith)
ordinary (b ∷ c ∷ raw) h = refl

-- an entry in front of those that follow
abbrev pub in_front : Entry → Option (List Entry) → Option (List Entry)
in_front e = Option.map (λ es. e ∷ es)

with_entry-in_front :
    (e : Entry) (rest : Option (List Entry))
    → e.special ≡ false
    → with_entry (some e) rest ≡ in_front e rest
with_entry-in_front e none h = refl
with_entry-in_front e (some rest) h = rw h refl

not_below : (a b : ℕ) → b ≤ a → ltb a b ≡ false
not_below a b h = ground arith

not_zero : (n : ℕ) → 33 ≤ n → (n == 0) ≡ false
not_zero n h = ground arith

neither : (a b : Bool) → a ≡ false → b ≡ false → (a || b) ≡ false
neither a b h k = ground arith

last_branch {ℓ} :
    {A : Type ℓ} (a b c : Bool) (x y z n : A)
    → a ≡ false
    → b ≡ false
    → c ≡ false
    → (if a then x else if b then y else if c then z else n) ≡ n
last_branch a b c x y z n h k l = rw (h, k, l) refl

records_step :
    (fuel : ℕ) (buffer : Bytes) (skip at len : ℕ) (e : Entry)
    → get_or buffer at 0 ≡ len
    → 33 ≤ len
    → at + len ≤ length buffer
    → parse_record (take len (drop at buffer)) skip ≡ some e
    → e.special ≡ false
    → records (suc fuel) buffer skip at ≡ in_front e (records fuel buffer skip (at + len))
unfolding records
records_step fuel buffer skip at len e first long inside parsed plain =
    let l = get_or buffer at 0 in
    last_branch (ltb (length buffer) (at + 33)) (l == 0) (ltb l 33 || ltb (length buffer) (at + l))
      (some []) (records fuel buffer skip ((at / 2048 + 1) * 2048)) (some [])
      (with_entry (parse_record (take l (drop at buffer)) skip) (records fuel buffer skip (at + l)))
      (not_below (length buffer) (at + 33) (omega (arith, long, inside)))
      (not_zero l (omega (arith, first, long)))
      (neither (ltb l 33) (ltb (length buffer) (at + l))
        (not_below l 33 (omega (arith, first, long)))
        (not_below (length buffer) (at + l) (omega (arith, first, inside))))
    ∙ ap
        (λ n.
          with_entry (parse_record (take n (drop at buffer)) skip)
            (records fuel buffer skip (at + n)))
        first
    ∙ ap (λ p. with_entry p (records fuel buffer skip (at + len))) parsed
    ∙ with_entry-in_front e (records fuel buffer skip (at + len)) plain

length-odd : (n : ℕ) → length {A = ℕ} (if n % 2 == 1 then 0 ∷ [] else []) ≤ 1
length-odd n = elim (Bool-cases (n % 2 == 1)) [
  | inl odd ↦ rw odd (omega arith)
  | inr even ↦ rw even (omega arith)
]

length-body :
    (identifier system : Bytes)
    → length identifier ≤ 14
    → length (record_body identifier system) ≤ length system + 15
length-body identifier system short =
    let pad : Bytes = if length identifier % 2 == 0 then 0 ∷ [] else [] in
    omega (
      arith,
      length-append identifier (pad ++ system),
      length-append pad system,
      length-pad (length identifier),
    )
  where
    length-pad : (n : ℕ) → length {A = ℕ} (if n % 2 == 0 then 0 ∷ [] else []) ≤ 1
    length-pad n = elim (Bool-cases (n % 2 == 0)) [
      | inl even ↦ rw even (omega arith)
      | inr odd ↦ rw odd (omega arith)
    ]

length-iso9660_record :
    (name : Str) (lba size skip : ℕ)
    → all is_ascii name ≡ true
    → length name + skip ≤ 201
    → (33 ≤ length (iso9660_record name lba size true skip))
      × (length (iso9660_record name lba size true skip) < 256)
unfolding iso9660_record
length-iso9660_record name lba size skip ascii short =
    let identifier = encode (mangle name) in
    let system = replicate skip 0 ++ nm_entry (encode name) in
    let total = length-make_record identifier system lba size in
    let small : length system ≤ 206 = omega (
      arith,
      length-append (replicate skip 0) (nm_entry (encode name)),
      length-replicate {A = ℕ} skip 0,
      ap length (encode-ascii name ascii),
      short,
    ) in
    (
      omega (arith, total),
      omega (
        arith,
        total,
        length-body identifier system (encode-mangle_short name).1,
        length-odd (33 + length (record_body identifier system)),
      ),
    )

first_byte-iso9660_record :
    (name : Str) (lba size skip : ℕ) (rest : Bytes)
    → length (iso9660_record name lba size true skip) < 256
    → get_or (iso9660_record name lba size true skip ++ rest) 0 0
      ≡ length (iso9660_record name lba size true skip)
unfolding iso9660_record
first_byte-iso9660_record name lba size skip rest small =
    first_byte (encode (mangle name)) (replicate skip 0 ++ nm_entry (encode name)) rest lba size
      small

-- Wherever in a directory a record stands that was written with a long name, the walk over the
-- directory gives the entry of that name in lower case, with the place and the size it was
-- written with and as a plain file, in front of the entries from the end of that record on. The
-- name has at least one character and is ASCII; with the bytes of somebody else that the system
-- use areas of the image start with it makes at most 201 bytes, so that the length of the record
-- fits its one byte; the place and the size fit 32 bits.
pub records-iso9660_record :
    (fuel : ℕ) (before rest : Bytes) (name : Str) (lba size skip : ℕ)
    → all is_ascii name ≡ true
    → is_empty name ≡ false
    → length name + skip ≤ 201
    → lba < 2 ^ 32
    → size < 2 ^ 32
    → (e : Entry) × (records
          (suc fuel)
          (before ++ (iso9660_record name lba size true skip ++ rest))
          skip
          (length before)
        ≡ in_front e (
            records fuel
              (before ++ (iso9660_record name lba size true skip ++ rest))
              skip
              (length before + length (iso9660_record name lba size true skip))))
      × (e.rock_ridge_name ≡ some (to_ascii_lowercase name))
      × (e.extent ≡ record { offset = lba * 2048; size = size; directory = false })
records-iso9660_record fuel before rest name lba size skip ascii something short lba_fits
      size_fits =
    let one = iso9660_record name lba size true skip in
    let buffer = before ++ (one ++ rest) in
    let (long, small) = length-iso9660_record name lba size skip ascii short in
    let e = long_read name lba size skip in
    let here : take (length one) (drop (length before) buffer) ≡ one =
      ap (take (length one)) (drop-append_past (length before) before (one ++ rest) refl)
      ∙ take-append_past (length one) one rest refl in
    (
      e,
      records_step fuel buffer skip (length before) (length one) e
          (get_or-past before (one ++ rest)
            ∙ first_byte-iso9660_record name lba size skip rest small)
          long (omega (arith, length-append before (one ++ rest), length-append one rest))
          (ap (λ b. parse_record b skip) here
            ∙ parse_record-long name lba size skip lba_fits size_fits)
          (ordinary (encode (mangle name)) (encode-mangle_short name).0),
      long_read-named name lba size skip ascii something (omega (arith, short)),
      refl,
    )
