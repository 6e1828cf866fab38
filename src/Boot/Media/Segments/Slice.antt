-- ===== src/Boot/Media/Segments/Slice.antt =====
-- What a narrowed segment reads.
use rescriptum.Prelude.{
  ℕ, zero, suc, ◌+◌, ◌-◌, ◌≤◌, ◌<◌, [], ◌∷◌, List, Bytes, Str, take, drop, ◌≡◌, refl, sym, ap, ◌∙◌,
  arith, drop-drop, append-nil, ◌++◌,
}
use rescriptum.Boot.Media.Segments.{Segment, file, bytes, patched, window, slice}

take_nil : {A : Type 0} (n : ℕ) → take {A = A} n [] ≡ []
take_nil zero = refl
take_nil (suc n) = refl

drop-take : {A : Type 0} (k n : ℕ) (xs : List A) → drop k (take n xs) ≡ take (n - k) (drop k xs)
drop-take zero n xs = ap (λ m. take m xs) (omega arith)
drop-take (suc k) zero xs = let none_left : 0 - suc k ≡ 0 = omega arith in rw none_left refl
drop-take (suc k) (suc n) [] = sym (take_nil (suc n - suc k))
drop-take (suc k) (suc n) (x ∷ xs) = drop-take k n xs ∙ ap (λ m. take m (drop k xs)) (omega arith)

take-take : {A : Type 0} (m n : ℕ) (xs : List A) → m ≤ n → take m (take n xs) ≡ take m xs
take-take zero n xs h = refl
take-take (suc m) zero xs h = absurd (omega arith)
take-take (suc m) (suc n) [] h = refl
take-take (suc m) (suc n) (x ∷ xs) h = ap (λ ys. x ∷ ys) (take-take m n xs (omega arith))

-- the bytes of a segment of a file, given the contents of the file
abbrev pub bytes_of : Bytes → ℕ → ℕ → Bytes
bytes_of contents offset n = take n (drop offset contents)

-- what a response gives whose segments are bytes or parts of files; a patched image gives nothing here
abbrev pub read : (Str → Bytes) → List Segment → Bytes
read files [] = []
read files (file path offset n ∷ rest) = bytes_of (files path) offset n ++ read files rest
read files (bytes b ∷ rest) = b ++ read files rest
read files (patched plan ∷ rest) = read files rest
read files (window plan s n ∷ rest) = read files rest

-- For a file served as one segment, a range that lies inside it reads exactly those bytes of the
-- whole: the segment narrowed to `first..last` gives the bytes from `first` to `last` inclusive.
pub read-slice :
    (files : Str → Bytes) (path : Str) (offset n first last : ℕ)
    → first ≤ last
    → last < n
    → read files (slice (file path offset n ∷ []) first last)
      ≡ take (last - first + 1) (drop first (read files (file path offset n ∷ [])))
unfolding slice
read-slice files path offset n first last h k =
    let c = files path in
    append-nil (bytes_of c (offset + first) (last - first + 1))
    ∙ ap (take (last - first + 1))
        (ap (λ m. drop m c) (omega arith) ∙ sym (drop-drop first offset c))
    ∙ sym (
        take-take (last - first + 1) (n - first) (drop first (drop offset c)) (omega (arith, h, k)))
    ∙ ap (take (last - first + 1)) (sym (drop-take first n (drop offset c)))
    ∙ ap (λ x. take (last - first + 1) (drop first x)) (sym (append-nil (bytes_of c offset n)))
