-- ===== src/Boot/Patch/Window.antt =====
-- Reading a window of a patched image and writing the image out are one and the same.
use rescriptum.Prelude.{
  ℕ, zero, suc, ◌+◌, ◌-◌, ◌≤◌, ◌<◌, false, List, [], ◌∷◌, ◌++◌, Bytes, ◌==◌, ltb, leb, min, length,
  take, drop, replicate, get_elem?, ◌≡◌, refl, sym, ap, ◌∙◌, arith, Bool-cases, inl, inr,
  length-append, length-take, length-drop, append-nil, take_all, take_add, take-append,
  drop-append_beyond, drop-append_within, drop_all,
}
use rescriptum.Prelude.Index.{get_elem-ext, get_elem-take_in, get_elem-drop, get_elem-beyond}
use mathlib.Core.List.{foldl}
use rescriptum.Boot.Patch.{
  Overwrite, Plan, plan_length, substitute, plain_window, read_at, write_loop, materialise,
}
use rescriptum.Boot.Patch.Overlay.{overlay, length-substitute, get_elem-substitute}

-- the patched image: the source and the tail with every overwrite in its place
unfoldable pub whole : Plan → Bytes → Bytes
whole p source = foldl (substitute 0) (source ++ p.tail) p.overwrites

abbrev window : ℕ → ℕ → Bytes → Bytes
window offset want image = take want (drop offset image)

length-window :
    (offset want : ℕ) (image : Bytes)
    → offset + want ≤ length image
    → length (window offset want image) ≡ want
length-window offset want image h =
    omega (arith, length-take want (drop offset image), length-drop offset image)

get_elem-window :
    (offset want : ℕ) (image : Bytes) (i : ℕ)
    → i < want
    → get_elem? (window offset want image) i ≡ get_elem? image (offset + i)
get_elem-window offset want image i h =
    get_elem-take_in want (drop offset image) i h ∙ get_elem-drop offset image i

zero_add : (n : ℕ) → 0 + n ≡ n
zero_add n = omega arith

-- a substitution in the image, seen through the window
window-substitute :
    (offset want : ℕ) (image : Bytes) (o : Overwrite)
    → offset + want ≤ length image
    → window offset want (substitute 0 image o) ≡ substitute offset (window offset want image) o
window-substitute offset want image o h =
    get_elem-ext (window offset want (substitute 0 image o))
      (substitute offset (window offset want image) o) same
  where
    long : length (window offset want image) ≡ want
    long = length-window offset want image h

    inside :
        (i : ℕ)
        → i < want
        → get_elem? (window offset want (substitute 0 image o)) i
          ≡ get_elem? (substitute offset (window offset want image) o) i
    inside i lt =
        get_elem-window offset want (substitute 0 image o) i lt
        ∙ get_elem-substitute 0 image o (offset + i) (omega (arith, h))
        ∙ ap (λ j. overlay o j (get_elem? image (offset + i))) (zero_add (offset + i))
        ∙ ap (overlay o (offset + i)) (sym (get_elem-window offset want image i lt))
        ∙ sym (get_elem-substitute offset (window offset want image) o i (omega (arith, long)))

    same :
        (i : ℕ)
        → get_elem? (window offset want (substitute 0 image o)) i
          ≡ get_elem? (substitute offset (window offset want image) o) i
    same i = elim (Bool-cases (ltb i want)) [
      | inl lt ↦ inside i (ground arith)
      | inr ge ↦
          get_elem-beyond (window offset want (substitute 0 image o)) i
            (ground (arith, length-take want (drop offset (substitute 0 image o))))
          ∙ sym (
              get_elem-beyond (substitute offset (window offset want image) o) i
                (ground (arith, long, length-substitute offset (window offset want image) o)))
    ]

length-foldl_substitute :
    (os : List Overwrite) (image : Bytes) → length (foldl (substitute 0) image os) ≡ length image
length-foldl_substitute [] image = refl
length-foldl_substitute (o ∷ os) image =
    length-foldl_substitute os (substitute 0 image o) ∙ length-substitute 0 image o

window-foldl :
    (os : List Overwrite) (offset want : ℕ) (image : Bytes)
    → offset + want ≤ length image
    → window offset want (foldl (substitute 0) image os)
      ≡ foldl (substitute offset) (window offset want image) os
window-foldl [] offset want image h = refl
window-foldl (o ∷ os) offset want image h =
    window-foldl os offset want (substitute 0 image o)
      (omega (arith, h, length-substitute 0 image o))
    ∙ ap (λ w. foldl (substitute offset) w os) (window-substitute offset want image o h)

-- two cuts at or behind the end, or one and the same
cut_at : (m n : ℕ) (xs : Bytes) → min m (length xs) ≡ min n (length xs) → take m xs ≡ take n xs
cut_at m n [] h = take_all m [] (omega arith) ∙ sym (take_all n [] (omega arith))
cut_at zero zero (x ∷ xs) h = refl
cut_at zero (suc n) (x ∷ xs) h = absurd (omega arith)
cut_at (suc m) zero (x ∷ xs) h = absurd (omega arith)
cut_at (suc m) (suc n) (x ∷ xs) h = ap (λ ys. x ∷ ys) (cut_at m n xs (omega arith))

-- a plan made of a source that has the length it says
module _ (p : Plan) (source : Bytes) (sized : length source ≡ p.source_len) where
  length-whole : length (whole p source) ≡ plan_length p
  unfolding whole plan_length
  length-whole =
      length-foldl_substitute p.overwrites (source ++ p.tail)
      ∙ length-append source p.tail
      ∙ ap (λ n. n + length p.tail) sized

  tail_part :
      (start n : ℕ)
      → start + n ≤ length p.tail
      → take n (drop start p.tail) ++ replicate (n - length (take n (drop start p.tail))) 0
        ≡ take n (drop start p.tail)
  tail_part start n h =
      let none_missing : n - length (take n (drop start p.tail)) ≡ 0 =
        omega (arith, length-take n (drop start p.tail), length-drop start p.tail) in
      ap (λ m. take n (drop start p.tail) ++ replicate m 0) none_missing
      ∙ append-nil (take n (drop start p.tail))

  plain_in_source :
      (offset want : ℕ)
      → offset < p.source_len
      → offset + want ≤ plan_length p
      → take (min (p.source_len - offset) want) (drop offset source)
          ++ take (want - min (p.source_len - offset) want) (drop (offset - p.source_len) p.tail)
        ≡ window offset want (source ++ p.tail)
  unfolding plan_length
  plain_in_source offset want before h =
      let rest = drop offset source in
      let left : length rest ≡ p.source_len - offset =
        length-drop offset source ∙ ap (λ n. n - offset) sized in
      let n = min (p.source_len - offset) want in
      let cut : take n rest ≡ take want rest = cut_at n want rest (omega (arith, left)) in
      let start : offset - p.source_len ≡ 0 = omega arith in
      let more : want - n ≡ want - length rest = omega (arith, left) in
      ap (λ x. x ++ take (want - n) (drop (offset - p.source_len) p.tail)) cut
      ∙ ap (λ k. take want rest ++ take (want - n) (drop k p.tail)) start
      ∙ ap (λ k. take want rest ++ take k p.tail) more
      ∙ sym (take-append want rest p.tail)
      ∙ ap (take want) (sym (drop-append_within offset source p.tail (omega (arith, sized))))

  plain_window-window :
      (offset want : ℕ)
      → offset + want ≤ plan_length p
      → plain_window p source offset want ≡ window offset want (source ++ p.tail)
  unfolding plain_window plan_length
  plain_window-window offset want h = elim (Bool-cases (ltb offset p.source_len)) [
    | inl before ↦
        let lt : offset < p.source_len = ground arith in
        rw before (
          ap (λ x. take (min (p.source_len - offset) want) (drop offset source) ++ x)
            (tail_part (offset - p.source_len) (want - min (p.source_len - offset) want)
              (omega arith))
          ∙ plain_in_source offset want lt h)
    | inr behind ↦
        let ge : p.source_len ≤ offset = ground arith in
        rw behind (
          tail_part (offset - p.source_len) (want - 0) (omega arith)
          ∙ ap (λ n. take n (drop (offset - p.source_len) p.tail)) {x = want - 0} {y = want}
              (omega arith)
          ∙ ap (λ n. take want (drop (offset - n) p.tail)) (sym sized)
          ∙ ap (take want) (sym (drop-append_beyond offset source p.tail (omega (arith, sized)))))
  ]

  -- what one `read_at` gives
  pub read_at-window :
      (offset size : ℕ) → read_at p source offset size ≡ window offset size (whole p source)
  unfolding read_at whole
  read_at-window offset size = elim (Bool-cases (leb (plan_length p) offset)) [
    | inl past ↦
        let ge : plan_length p ≤ offset = ground arith in
        let nothing : drop offset (foldl (substitute 0) (source ++ p.tail) p.overwrites) ≡ [] =
          drop_all offset (foldl (substitute 0) (source ++ p.tail) p.overwrites)
            (omega (arith, length-whole)) in
        rw past (sym (ap (take size) nothing ∙ take_all size [] (omega arith)))
    | inr in_image ↦
        let lt : offset < plan_length p = ground arith in
        let want = min size (plan_length p - offset) in
        let image = source ++ p.tail in
        let fits : offset + want ≤ length image =
          omega (arith, length-whole, length-foldl_substitute p.overwrites image) in
        rw in_image (
          ap (λ w. foldl (substitute offset) w p.overwrites)
            (plain_window-window offset want (omega arith))
          ∙ sym (window-foldl p.overwrites offset want image fits)
          ∙ cut_at want size (drop offset (foldl (substitute 0) image p.overwrites)) (
              omega (
                arith,
                length-whole,
                length-drop offset (foldl (substitute 0) image p.overwrites),
              )))
  ]

  write_loop-whole :
      (fuel size at : ℕ) (out : Bytes)
      → 0 < size
      → plan_length p < fuel + at
      → at ≤ plan_length p
      → out ≡ take at (whole p source)
      → write_loop fuel p source size at out ≡ whole p source
  unfolding write_loop
  write_loop-whole zero size at out pos enough inside h = absurd (omega arith)
  write_loop-whole (suc fuel) size at out pos enough inside h =
      elim (Bool-cases (ltb at (plan_length p))) [
        | inr over ↦
            rw (over, write_loop) (h ∙ take_all at (whole p source) (ground (arith, length-whole)))
        | inl more ↦
            let piece = read_at p source at size in
            let lt : at < plan_length p = ground arith in
            let shape = read_at-window at size in
            let long : length piece ≡ min size (plan_length p - at) =
              ap length shape
              ∙ length-take size (drop at (whole p source))
              ∙ ap (min size) (length-drop at (whole p source) ∙ ap (λ n. n - at) length-whole) in
            let some_bytes : (length piece == 0) ≡ false = ground (arith, long) in
            let longer : out ++ piece ≡ take (at + length piece) (whole p source) =
              ap (λ x. x ++ piece) h
              ∙ ap (λ x. take at (whole p source) ++ x)
                  (shape
                    ∙ cut_at size (length piece) (drop at (whole p source))
                        (omega (arith, long, length-drop at (whole p source), length-whole)))
              ∙ take_add at (length piece) (whole p source) in
            rw (more, some_bytes, write_loop)
              (write_loop-whole fuel size (at + length piece) (out ++ piece) pos
                (omega (arith, long)) (omega (arith, long)) longer)
      ]

  materialise-whole : materialise p source ≡ whole p source
  unfolding materialise
  materialise-whole =
      write_loop-whole (plan_length p + 1) 1048576 0 [] (omega arith) (omega arith) (omega arith)
        refl

-- Where the source has the length that the plan says, a read at an offset into a buffer of some
-- size gives the bytes of the written-out image from the offset on, as many as the buffer holds
-- and the image has.
pub read_at-materialise :
    (p : Plan) (source : Bytes) (offset size : ℕ)
    → length source ≡ p.source_len
    → read_at p source offset size ≡ take size (drop offset (materialise p source))
read_at-materialise p source offset size sized =
    read_at-window p source sized offset size
    ∙ ap (λ image. take size (drop offset image)) (sym (materialise-whole p source sized))
