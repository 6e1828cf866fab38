-- ===== src/Boot/Patch/ReadBack.antt =====
-- The record that src/boot/patch.rs writes is the one that src/boot/iso.rs reads.
use rescriptum.Prelude.{
  ℕ, ◌+◌, ◌*◌, ◌/◌, ◌%◌, ◌^◌, ◌≤◌, ◌<◌, true, false, [], ◌∷◌, ◌++◌, some, Bytes, ◌==◌, ltb,
  if◌then◌else◌, length, take, drop, get_or, ◌≡◌, refl, sym, ap, ◌∙◌, arith, length-append,
  take-append_past, drop-append_past, drop-drop, Bool-cases, inl, inr, append_assoc,
}
use rescriptum.Boot.Iso.{Entry, Extent, sector, parse_record, built, is_special, system_at}
use rescriptum.Boot.Iso
use rescriptum.Boot.Iso.Names.{iso_name, ucs2_name, rock_ridge_name}
use rescriptum.Boot.Patch.Build.{make_record, record_body, both_endian32, both_endian16}

-- four bytes in both orders
abbrev twice : ℕ → ℕ → ℕ → ℕ → Bytes
twice a b c d = a ∷ b ∷ c ∷ d ∷ d ∷ c ∷ b ∷ a ∷ []

abbrev word : ℕ → ℕ → ℕ → ℕ → ℕ
word a b c d = a + b * 256 + c * 65536 + d * 16777216

both-twice : (a b c d : ℕ) → Iso.both_endian32 (twice a b c d) ≡ some (word a b c d)
unfolding Iso.both_endian32
both-twice a b c d =
    let same : (word a b c d == (d * 16777216 + c * 65536 + b * 256 + a)) ≡ true = ground arith in
    rw same refl

word_of :
    (v : ℕ) → v < 2 ^ 32 → word (v % 256) (v / 256 % 256) (v / 65536 % 256) (v / 16777216 % 256) ≡ v
word_of v h = omega (arith, h)

both-both : (v : ℕ) → v < 2 ^ 32 → Iso.both_endian32 (both_endian32 v) ≡ some v
unfolding both_endian32
both-both v h =
    both-twice (v % 256) (v / 256 % 256) (v / 65536 % 256) (v / 16777216 % 256)
    ∙ ap some (word_of v h)

-- a record of which the header is known byte by byte
abbrev raw_record : ℕ → ℕ → ℕ → ℕ → ℕ → ℕ → ℕ → ℕ → ℕ → ℕ → Bytes → Bytes
raw_record len a b c d a' b' c' d' n rest =
    (len ∷ 0 ∷ [])
    ++ (twice a b c d
        ++ (twice a' b' c' d'
            ++ ((0 ∷ 0 ∷ 0 ∷ 0 ∷ 0 ∷ 0 ∷ 0 ∷ 0 ∷ 0 ∷ 0 ∷ []) ++ (1 ∷ 0 ∷ 0 ∷ 1 ∷ n ∷ rest))))

parse-record :
    (bytes : Bytes) (skip lba size : ℕ)
    → 33 + get_or bytes 32 0 ≤ length bytes
    → Iso.both_endian32 (take 8 (drop 2 bytes)) ≡ some lba
    → Iso.both_endian32 (take 8 (drop 10 bytes)) ≡ some size
    → parse_record bytes skip
      ≡ some (built bytes skip (take (get_or bytes 32 0) (drop 33 bytes)) lba size)
unfolding parse_record
parse-record bytes skip lba size long at_2 at_10 =
    let enough : ltb (length bytes) 33 ≡ false = ground (arith, long) in
    let fits : ltb (length bytes) (33 + get_or bytes 32 0) ≡ false = ground (arith, long) in
    rw (enough, fits, at_2, at_10, parse_record) refl

parse-raw :
    (len a b c d a' b' c' d' n : ℕ) (rest : Bytes) (skip : ℕ)
    → n ≤ length rest
    → parse_record (raw_record len a b c d a' b' c' d' n rest) skip
      ≡ some (
          built
            (raw_record len a b c d a' b' c' d' n rest)
            skip
            (take n rest)
            (word a b c d)
            (word a' b' c' d'))
parse-raw len a b c d a' b' c' d' n rest skip h =
    parse-record (raw_record len a b c d a' b' c' d' n rest) skip (word a b c d) (word a' b' c' d')
      (omega (arith, h)) (both-twice a b c d) (both-twice a' b' c' d')

-- what stands behind the header
abbrev pub padding_of : Bytes → Bytes → Bytes
padding_of identifier system =
    if (33 + length (record_body identifier system)) % 2 == 1 then 0 ∷ [] else []

abbrev behind : Bytes → Bytes → Bytes
behind identifier system = record_body identifier system ++ padding_of identifier system

pub make-raw :
    (identifier system : Bytes) (lba size : ℕ)
    → make_record identifier lba size system
      ≡ raw_record
          ((33 + length (record_body identifier system) + length (padding_of identifier system))
            % 256)
          (lba % 256)
          (lba / 256 % 256)
          (lba / 65536 % 256)
          (lba / 16777216 % 256)
          (size % 256)
          (size / 256 % 256)
          (size / 65536 % 256)
          (size / 16777216 % 256)
          (length identifier % 256)
          (behind identifier system)
unfolding make_record both_endian32 both_endian16
make-raw identifier system lba size = refl

identifier-behind :
    (identifier system : Bytes) → take (length identifier) (behind identifier system) ≡ identifier
identifier-behind identifier system =
    ap (take (length identifier))
      (append_assoc identifier (pad ++ system) (padding_of identifier system))
    ∙ take-append_past (length identifier) identifier
        ((pad ++ system) ++ padding_of identifier system) refl
  where
    pad : Bytes
    pad = if length identifier % 2 == 0 then 0 ∷ [] else []

drop-behind :
    (bytes identifier pad system rest : Bytes) (at : ℕ)
    → drop 33 bytes ≡ (identifier ++ (pad ++ system)) ++ rest
    → at ≡ 33 + (length identifier + length pad)
    → drop at bytes ≡ system ++ rest
drop-behind bytes identifier pad system rest at e place =
    let n = length identifier + length pad in
    ap (λ m. drop m bytes) place
    ∙ sym (drop-drop n 33 bytes)
    ∙ ap (drop n) (
        e
        ∙ ap (λ x. x ++ rest) (sym (append_assoc identifier pad system))
        ∙ append_assoc (identifier ++ pad) system rest)
    ∙ drop-append_past n (identifier ++ pad) (system ++ rest) (length-append identifier pad)

system-behind :
    (bytes identifier system : Bytes)
    → drop 33 bytes ≡ behind identifier system
    → drop (system_at (length identifier)) bytes ≡ system ++ padding_of identifier system
system-behind bytes identifier system e =
    let rest = padding_of identifier system in
    elim (Bool-cases (length identifier % 2 == 0)) [
      | inl even ↦
          drop-behind bytes identifier (0 ∷ []) system rest (system_at (length identifier))
            (e ∙ ap (λ t. (identifier ++ ((if t then 0 ∷ [] else []) ++ system)) ++ rest) even)
            (ap (λ t. if t then 33 + length identifier + 1 else 33 + length identifier) even
              ∙ omega arith)
      | inr odd ↦
          drop-behind bytes identifier [] system rest (system_at (length identifier))
            (e ∙ ap (λ t. (identifier ++ ((if t then 0 ∷ [] else []) ++ system)) ++ rest) odd)
            (ap (λ t. if t then 33 + length identifier + 1 else 33 + length identifier) odd
              ∙ omega arith)
    ]

-- what the reader makes of a record that was written
abbrev pub read_back : Bytes → Bytes → ℕ → ℕ → ℕ → Entry
read_back identifier system lba size skip = record {
  name = iso_name identifier;
  rock_ridge_name = rock_ridge_name (system ++ padding_of identifier system) skip;
  joliet_name = ucs2_name identifier;
  extent = record { offset = lba * sector; size = size; directory = false };
  special = is_special identifier;
}

abbrev with_area : Bytes → Bytes → ℕ → ℕ → ℕ → Entry
with_area identifier area lba size skip = record {
  name = iso_name identifier;
  rock_ridge_name = rock_ridge_name area skip;
  joliet_name = ucs2_name identifier;
  extent = record { offset = lba * sector; size = size; directory = false };
  special = is_special identifier;
}

abbrev seen : Bytes → ℕ → Bytes → ℕ → ℕ → Entry
seen bytes skip raw lba size =
    with_area raw (drop (system_at (get_or bytes 32 0)) bytes) lba size skip

abbrev word_at : ℕ → ℕ
word_at v = word (v % 256) (v / 256 % 256) (v / 65536 % 256) (v / 16777216 % 256)

room_for :
    (identifier system : Bytes) (n : ℕ)
    → n ≡ length identifier
    → n ≤ length (behind identifier system)
room_for identifier system n exact =
    let pad : Bytes = if length identifier % 2 == 0 then 0 ∷ [] else [] in
    omega (
      arith,
      exact,
      length-append (record_body identifier system) (padding_of identifier system),
      length-append identifier (pad ++ system),
    )

-- A record that is written for an identifier of at most 255 bytes, with a place and a size that
-- fit 32 bits, is read back with that identifier, place and size, as a plain file, and with what
-- is in its system use area.
pub parse_record-make_record :
    (identifier system : Bytes) (lba size skip : ℕ)
    → length identifier ≤ 255
    → lba < 2 ^ 32
    → size < 2 ^ 32
    → parse_record (make_record identifier lba size system) skip
      ≡ some (read_back identifier system lba size skip)
parse_record-make_record identifier system lba size skip short lba_fits size_fits =
    let n = length identifier % 256 in
    let exact : n ≡ length identifier = omega (arith, short) in
    let rest = behind identifier system in
    let bytes =
      raw_record
        ((33 + length (record_body identifier system) + length (padding_of identifier system))
          % 256)
        (lba % 256) (lba / 256 % 256) (lba / 65536 % 256) (lba / 16777216 % 256) (size % 256)
        (size / 256 % 256) (size / 65536 % 256) (size / 16777216 % 256) n rest in
    let room : n ≤ length rest = room_for identifier system n exact in
    ap (λ b. parse_record b skip) (make-raw identifier system lba size)
    ∙ parse-raw
        ((33 + length (record_body identifier system) + length (padding_of identifier system))
          % 256)
        (lba % 256) (lba / 256 % 256) (lba / 65536 % 256) (lba / 16777216 % 256) (size % 256)
        (size / 256 % 256) (size / 65536 % 256) (size / 16777216 % 256) n rest skip room
    ∙ ap (λ raw. some (seen bytes skip raw (word_at lba) (word_at size)))
        (ap (λ m. take m rest) exact ∙ identifier-behind identifier system)
    ∙ ap (λ v. some (seen bytes skip identifier v (word_at size))) (word_of lba lba_fits)
    ∙ ap (λ v. some (seen bytes skip identifier lba v)) (word_of size size_fits)
    ∙ ap (λ area. some (with_area identifier area lba size skip))
        (ap (λ m. drop (system_at m) bytes) exact ∙ system-behind bytes identifier system refl)
