-- ===== src/Boot/Patch/Overlay.antt =====
-- A substitution in src/boot/patch.rs, byte by byte.
use rescriptum.Prelude.{
  ℕ, ◌+◌, ◌-◌, ◌≤◌, ◌<◌, Bool, true, false, ◌&&◌, ◌||◌, ◌++◌, Option, Bytes, ltb, leb,
  if◌then◌else◌, min, max, length, take, drop, get_elem?, ◌≡◌, refl, sym, ap, ◌∙◌, arith,
  Bool-cases, inl, inr, length-append, length-take, length-drop,
}
use rescriptum.Prelude.Index.{
  get_elem-append_left, get_elem-append_right, get_elem-take_in, get_elem-drop,
}
use rescriptum.Boot.Patch.{Overwrite, copy_into, substitute}

-- the index falls on the substituted bytes
abbrev pub hit : Overwrite → ℕ → Bool
hit o i = leb o.at i && ltb i (o.at + length o.bytes)

-- the byte at index `i` of the whole, which was `old`
abbrev pub overlay : Overwrite → ℕ → Option ℕ → Option ℕ
overlay o i old = if hit o i then get_elem? o.bytes (i - o.at) else old

module _ (buffer bytes : Bytes) (at : ℕ) (fits : at + length bytes ≤ length buffer) where
  length-before : length (take at buffer) ≡ at
  length-before = omega (arith, length-take at buffer)

  pub length-copy_into : length (copy_into buffer at bytes) ≡ length buffer
  length-copy_into = omega (
    arith,
    length-before,
    length-append (take at buffer) (bytes ++ drop (at + length bytes) buffer),
    length-append bytes (drop (at + length bytes) buffer),
    length-drop (at + length bytes) buffer,
  )

  copy_into_before : (i : ℕ) → i < at → get_elem? (copy_into buffer at bytes) i ≡ get_elem? buffer i
  copy_into_before i h =
      get_elem-append_left (take at buffer) (bytes ++ drop (at + length bytes) buffer) i
        (omega (arith, length-before))
      ∙ get_elem-take_in at buffer i h

  copy_into_within :
      (i : ℕ)
      → at ≤ i
      → i < at + length bytes
      → get_elem? (copy_into buffer at bytes) i ≡ get_elem? bytes (i - at)
  copy_into_within i lo hi =
      get_elem-append_right (take at buffer) (bytes ++ drop (at + length bytes) buffer) i
        (omega (arith, length-before))
      ∙ get_elem-append_left bytes (drop (at + length bytes) buffer) (i - length (take at buffer))
          (omega (arith, length-before))
      ∙ ap (get_elem? bytes) (omega (arith, length-before))

  copy_into_behind :
      (i : ℕ) → at + length bytes ≤ i → get_elem? (copy_into buffer at bytes) i ≡ get_elem? buffer i
  copy_into_behind i h =
      get_elem-append_right (take at buffer) (bytes ++ drop (at + length bytes) buffer) i
        (omega (arith, length-before))
      ∙ get_elem-append_right bytes (drop (at + length bytes) buffer) (i - length (take at buffer))
          (omega (arith, length-before))
      ∙ get_elem-drop (at + length bytes) buffer (i - length (take at buffer) - length bytes)
      ∙ ap (get_elem? buffer) (omega (arith, length-before))

-- where an index stands to a stretch of `n` from `at` on
data Where (at n i : ℕ) : Type 0 where
  before : i < at → Where at n i
  within : at ≤ i → i < at + n → Where at n i
  behind : at + n ≤ i → Where at n i

locate : (at n i : ℕ) → Where at n i
locate at n i = elim (Bool-cases (ltb i at)) [
  | inl h ↦ before (ground arith)
  | inr h ↦ elim (Bool-cases (ltb i (at + n))) [
    | inl k ↦ within (ground arith) (ground arith)
    | inr k ↦ behind (ground arith)
  ]
]

module _ (offset : ℕ) (buffer : Bytes) (o : Overwrite) where
  -- the part of the overwrite that falls into the window
  abbrev first : ℕ
  first = max o.at offset

  abbrev part : Bytes
  part =
      take (min (o.at + length o.bytes) (offset + length buffer) - first)
        (drop (first - o.at) o.bytes)

  length-part : length part ≡ min (o.at + length o.bytes) (offset + length buffer) - first
  length-part = omega (
    arith,
    length-take (min (o.at + length o.bytes) (offset + length buffer) - first)
        (drop (first - o.at) o.bytes),
    length-drop (first - o.at) o.bytes,
  )

  abbrev misses : Bool
  misses = leb (o.at + length o.bytes) offset || leb (offset + length buffer) o.at

  fits_in : misses ≡ false → first - offset + length part ≤ length buffer
  fits_in h = ground (arith, length-part, h)

  pub length-substitute : length (substitute offset buffer o) ≡ length buffer
  unfolding substitute
  length-substitute = elim (Bool-cases misses) [
    | inl away ↦ rw away refl
    | inr meets ↦ rw meets (length-copy_into buffer part (first - offset) (fits_in meets))
  ]

  substitute_meets :
      misses ≡ false
      → (i : ℕ) → i < length buffer
      → get_elem? (copy_into buffer (first - offset) part) i
        ≡ overlay o (offset + i) (get_elem? buffer i)
  substitute_meets meets i inside = elim (locate (first - offset) (length part) i) [
    | before h ↦
        let away : hit o (offset + i) ≡ false = ground (arith, length-part) in
        copy_into_before buffer part (first - offset) (fits_in meets) i h ∙ (rw away refl)
    | within lo hi ↦
        let on : hit o (offset + i) ≡ true = ground (arith, length-part) in
        let index : first - o.at + (i - (first - offset)) ≡ offset + i - o.at = omega (arith, lo) in
        copy_into_within buffer part (first - offset) (fits_in meets) i lo hi
        ∙ get_elem-take_in (min (o.at + length o.bytes) (offset + length buffer) - first)
            (drop (first - o.at) o.bytes) (i - (first - offset)) (omega (arith, length-part, hi))
        ∙ get_elem-drop (first - o.at) o.bytes (i - (first - offset))
        ∙ ap (get_elem? o.bytes) index
        ∙ (rw on refl)
    | behind h ↦
        let away : hit o (offset + i) ≡ false = ground (arith, length-part, meets) in
        copy_into_behind buffer part (first - offset) (fits_in meets) i h ∙ (rw away refl)
  ]

  -- One substitution in a window, byte by byte.
  pub get_elem-substitute :
      (i : ℕ)
      → i < length buffer
      → get_elem? (substitute offset buffer o) i ≡ overlay o (offset + i) (get_elem? buffer i)
  unfolding substitute
  get_elem-substitute i inside = elim (Bool-cases misses) [
    | inr meets ↦ rw meets (substitute_meets meets i inside)
    | inl away ↦
        let off : hit o (offset + i) ≡ false = ground (arith, away) in rw away (sym (rw off refl))
  ]
