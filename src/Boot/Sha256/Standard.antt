-- ===== src/Boot/Sha256/Standard.antt =====
-- The digest as FIPS 180-4 defines it, beside the code of src/boot/sha256.rs and without any of it:
-- the functions of section 4.1.2, the constants of 4.2.2 and 5.3.3 from the roots of the primes
-- that define them, the padding of 5.1.1 and the computation of 6.2.2. Words are numbers below 2 ^ 32.
use Prim.Native.Nat.{bit_and, bit_xor}
use rescriptum.Prelude.{
  ℕ, zero, suc, ◌+◌, ◌-◌, ◌*◌, ◌/◌, ◌%◌, ◌^◌, Bool, not, ◌&&◌, List, [], ◌∷◌, ◌++◌, Bytes, ◌==◌,
  leb, if◌then◌else◌, length, take, drop, map, filter, any, replicate, get_or,
}

-- the shift and the rotation to the right
abbrev pub shr : ℕ → ℕ → ℕ
shr n x = x / 2 ^ n

abbrev pub rotr : ℕ → ℕ → ℕ
rotr n x = x / 2 ^ n + x * 2 ^ (32 - n) % 2 ^ 32

abbrev pub xor : ℕ → ℕ → ℕ
xor = bit_xor

abbrev pub big_sigma0 : ℕ → ℕ
big_sigma0 x = xor (xor (rotr 2 x) (rotr 13 x)) (rotr 22 x)

abbrev pub big_sigma1 : ℕ → ℕ
big_sigma1 x = xor (xor (rotr 6 x) (rotr 11 x)) (rotr 25 x)

abbrev pub small_sigma0 : ℕ → ℕ
small_sigma0 x = xor (xor (rotr 7 x) (rotr 18 x)) (shr 3 x)

abbrev pub small_sigma1 : ℕ → ℕ
small_sigma1 x = xor (xor (rotr 17 x) (rotr 19 x)) (shr 10 x)

abbrev pub ch : ℕ → ℕ → ℕ → ℕ
ch x y z = xor (bit_and x y) (bit_and (2 ^ 32 - 1 - x) z)

abbrev pub maj : ℕ → ℕ → ℕ → ℕ
maj x y z = xor (xor (bit_and x y) (bit_and x z)) (bit_and y z)

-- the largest number whose `k`-th power is at most `n`, bit by bit from the `b`-th
root_from : ℕ → ℕ → ℕ → ℕ → ℕ
root_from zero k n r = r
root_from (suc b) k n r = root_from b k n (if leb ((r + 2 ^ b) ^ k) n then r + 2 ^ b else r)

-- the first 32 bits of the fractional part of the `k`-th root of `p`
unfoldable root_bits : ℕ → ℕ → ℕ
unfolding root_from
root_bits k p = root_from 40 k (p * 2 ^ (32 * k)) 0 % 2 ^ 32

below : ℕ → List ℕ
below zero = []
below (suc n) = below n ++ (n ∷ [])

is_prime : ℕ → Bool
unfolding below
is_prime p = leb 2 p && not (any (λ d. p % d == 0) (drop 2 (below p)))

-- the first 64 of the primes, of which 311 is the last
unfoldable primes : List ℕ
unfolding below is_prime
primes = filter is_prime (below 312)

unfoldable pub constants : List ℕ
unfolding primes root_bits
constants = map (root_bits 3) primes

pub record Hash : Type 0 where
  pub a : ℕ
  pub b : ℕ
  pub c : ℕ
  pub d : ℕ
  pub e : ℕ
  pub f : ℕ
  pub g : ℕ
  pub h : ℕ

-- the words of a hash, in order
abbrev pub words : Hash → List ℕ
words v = v.a ∷ v.b ∷ v.c ∷ v.d ∷ v.e ∷ v.f ∷ v.g ∷ v.h ∷ []

unfoldable pub first : Hash
unfolding root_bits
first = record {
  a = root_bits 2 2;
  b = root_bits 2 3;
  c = root_bits 2 5;
  d = root_bits 2 7;
  e = root_bits 2 11;
  f = root_bits 2 13;
  g = root_bits 2 17;
  h = root_bits 2 19;
}

-- the big-endian words of a block
unfoldable pub message : Bytes → List ℕ
message (a ∷ b ∷ c ∷ d ∷ rest) = (((a * 256 + b) * 256 + c) * 256 + d) ∷ message rest
message _ = []

-- the word that follows those of the schedule so far
abbrev pub scheduled : List ℕ → ℕ
scheduled w =
    let t = length w in
    (small_sigma1 (get_or w (t - 2) 0)
      + get_or w (t - 7) 0
      + small_sigma0 (get_or w (t - 15) 0)
      + get_or w (t - 16) 0)
    % 2 ^ 32

unfoldable pub extend : ℕ → List ℕ → List ℕ
extend zero w = w
extend (suc n) w = extend n (w ++ (scheduled w ∷ []))

abbrev pub first_sum : ℕ → ℕ → Hash → ℕ
first_sum k w v = v.h + big_sigma1 v.e + ch v.e v.f v.g + k + w

abbrev pub second_sum : Hash → ℕ
second_sum v = big_sigma0 v.a + maj v.a v.b v.c

abbrev pub turn : ℕ → ℕ → Hash → Hash
turn k w v = record {
  a = (first_sum k w v + second_sum v) % 2 ^ 32;
  b = v.a;
  c = v.b;
  d = v.c;
  e = (v.d + first_sum k w v) % 2 ^ 32;
  f = v.e;
  g = v.f;
  h = v.g;
}

unfoldable pub turns : List ℕ → List ℕ → Hash → Hash
turns (k ∷ ks) (w ∷ ws) v = turns ks ws (turn k w v)
turns [] ws v = v
turns (k ∷ ks) [] v = v

abbrev pub sum_of : Hash → Hash → Hash
sum_of u v = record {
  a = (u.a + v.a) % 2 ^ 32;
  b = (u.b + v.b) % 2 ^ 32;
  c = (u.c + v.c) % 2 ^ 32;
  d = (u.d + v.d) % 2 ^ 32;
  e = (u.e + v.e) % 2 ^ 32;
  f = (u.f + v.f) % 2 ^ 32;
  g = (u.g + v.g) % 2 ^ 32;
  h = (u.h + v.h) % 2 ^ 32;
}

unfoldable pub next_hash : Hash → Bytes → Hash
unfolding turns extend message constants
next_hash v block = sum_of v (turns constants (extend 48 (message block)) v)

unfoldable pub hash_blocks : ℕ → Hash → Bytes → Hash
unfolding next_hash
hash_blocks zero v m = v
hash_blocks (suc n) v m = hash_blocks n (next_hash v (take 64 m)) (drop 64 m)

-- a number in so many big-endian bytes
unfoldable pub big_endian : ℕ → ℕ → Bytes
big_endian zero n = []
big_endian (suc k) n = big_endian k (n / 256) ++ (n % 256 ∷ [])

unfoldable pub bytes_of : List ℕ → Bytes
unfolding big_endian
bytes_of [] = []
bytes_of (w ∷ ws) = big_endian 4 w ++ bytes_of ws

-- a one bit, zeros, and the length in bits make whole blocks
abbrev pub zero_count : ℕ → ℕ
zero_count n = (119 - n % 64) % 64

unfoldable pub padded : Bytes → Bytes
unfolding big_endian
padded m = m ++ 0x80 ∷ (replicate (zero_count (length m)) 0 ++ big_endian 8 (length m * 8 % 2 ^ 64))

unfoldable pub reference : Bytes → Bytes
unfolding padded hash_blocks bytes_of
reference m = bytes_of (words (hash_blocks (length (padded m) / 64) first (padded m)))
