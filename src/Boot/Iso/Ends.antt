-- ===== src/Boot/Iso/Ends.antt =====
-- The walk over a directory's records ends.
use rescriptum.Prelude.{
  ℕ, zero, suc, ◌+◌, ◌*◌, ◌/◌, ◌<◌, true, false, ◌||◌, List, Option, none, some, Bytes, ◌==◌, ltb,
  length, take, drop, get_or, is_some, ◌≡◌, refl, arith, Bool-cases, inl, inr,
}
use rescriptum.Boot.Iso.{Entry, sector, record_header, records, parse_record, with_entry}

with_entry-is_some :
    (entry : Option Entry) (rest : Option (List Entry))
    → is_some rest ≡ true
    → is_some (with_entry entry rest) ≡ true
with_entry-is_some entry none h = absurd (ground arith)
with_entry-is_some none (some rest) h = refl
with_entry-is_some (some e) (some rest) h = elim (Bool-cases e.special) [
  | inl dots ↦ rw dots refl
  | inr ordinary ↦ rw ordinary refl
]

-- With at least one round, and more rounds than there are bytes behind the place, the walk over the records of a
-- directory ends with a list of entries, whatever the bytes are.
pub records_ended :
    (fuel : ℕ) (buffer : Bytes) (susp_skip at : ℕ)
    → 0 < fuel
    → length buffer < fuel + at
    → is_some (records fuel buffer susp_skip at) ≡ true
unfolding records
records_ended zero buffer susp_skip at some_fuel h = absurd (omega arith)
records_ended (suc fuel) buffer susp_skip at some_fuel h =
    let len = get_or buffer at 0 in
    let left : ltb (length buffer) (at + record_header) ≡ false → 0 < fuel =
      λ inside. ground (arith, h, inside) in
    elim (Bool-cases (ltb (length buffer) (at + record_header))) [
      | inl over ↦ rw (over, records) refl
      | inr inside ↦ elim (Bool-cases (len == 0)) [
        | inl padded ↦
            rw (inside, padded, records)
              (records_ended fuel buffer susp_skip ((at / sector + 1) * sector) (left inside)
                (omega (arith, h)))
        | inr sized ↦ elim (Bool-cases (ltb len record_header || ltb (length buffer) (at + len))) [
          | inl broken ↦ rw (inside, sized, broken, records) refl
          | inr whole ↦
              let more : 0 < len = ground (arith, sized) in
              rw (inside, sized, whole, records)
                (with_entry-is_some (parse_record (take len (drop at buffer)) susp_skip)
                  (records fuel buffer susp_skip (at + len))
                  (records_ended fuel buffer susp_skip (at + len) (left inside)
                    (omega (arith, h, more))))
        ]
      ]
    ]
