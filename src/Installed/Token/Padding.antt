-- ===== src/Installed/Token/Padding.antt =====
-- What the comparison of tokens accepts.
use Prim.Native.Nat.{bit_or, bit_xor}
use rescriptum.Prelude.{
  ℕ, zero, suc, ◌+◌, ◌%◌, ◌<◌, Bool, true, ◌&&◌, [], ◌∷◌, ◌++◌, Bytes, ◌==◌, ==_iff, length,
  length-append, replicate, All, ◌≡◌, refl, ap, ◌∙◌, arith,
}
use rescriptum.Installed.Token.{fold_bytes, constant_time_eq}

-- a test on all numbers below `n`
holds_below : ℕ → (ℕ → Bool) → Bool
holds_below zero test = true
holds_below (suc n) test = holds_below n test && test n

below : (n : ℕ) (test : ℕ → Bool) (x : ℕ) → holds_below n test ≡ true → x < n → test x ≡ true
unfolding holds_below
below zero test x h lt = absurd (omega arith)
below (suc n) test x h lt = ground (arith, below n test x)

same_byte : (x : ℕ) → x < 256 → bit_xor x x ≡ 0
unfolding holds_below
same_byte x h = (==_iff (bit_xor x x) 0).0 (below 256 (λ y. bit_xor y y == 0) x refl h)

padded_length : (n : ℕ) → n < 256 → bit_xor (n + 256) n % 256 ≡ 0
unfolding holds_below
padded_length n h =
    (==_iff (bit_xor (n + 256) n % 256) 0).0
      (below 256 (λ m. bit_xor (m + 256) m % 256 == 0) n refl h)

fold_zeros : (n : ℕ) → fold_bytes (replicate n 0) [] 0 ≡ 0
unfolding fold_bytes
fold_zeros zero = refl
fold_zeros (suc n) = fold_zeros n

fold_same :
    (a rest : Bytes) → All (λ x. x < 256) a → fold_bytes (a ++ rest) a 0 ≡ fold_bytes rest [] 0
unfolding fold_bytes
fold_same [] rest h = refl
fold_same (x ∷ a) rest (small, h) =
    ap (λ d. fold_bytes (a ++ rest) a (bit_or 0 d)) (same_byte x small) ∙ fold_same a rest h

-- The expected token followed by 256 zero bytes compares equal to it, where the token has fewer than
-- 256 bytes.
pub constant_time_eq_padded :
    (expected : Bytes)
    → All (λ x. x < 256) expected
    → length expected < 256
    → constant_time_eq (expected ++ replicate 256 0) expected ≡ true
unfolding constant_time_eq
constant_time_eq_padded expected h short =
    let longer : length (expected ++ replicate 256 0) ≡ length expected + 256 =
      length-append expected (replicate 256 0) in
    let lengths : bit_xor (length (expected ++ replicate 256 0)) (length expected) % 256 ≡ 0 =
      ap (λ n. bit_xor n (length expected) % 256) longer ∙ padded_length (length expected) short in
    (==_iff (fold_bytes (expected ++ replicate 256 0) expected _) 0).1 (
      ap (fold_bytes (expected ++ replicate 256 0) expected) lengths
      ∙ fold_same expected (replicate 256 0) h
      ∙ fold_zeros 256)
