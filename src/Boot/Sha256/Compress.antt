-- ===== src/Boot/Sha256/Compress.antt =====
-- `Sha256::compress` of src/boot/sha256.rs, and its constants.
use Prim.Native.Nat.{bit_and, bit_xor}
use rescriptum.Prelude.{
  ℕ, zero, suc, ◌+◌, ◌-◌, ◌*◌, ◌/◌, ◌%◌, ◌^◌, List, [], ◌∷◌, ◌++◌, Bytes, length, get_or,
}

abbrev pub k : List ℕ
k =
    0x428a2f98 ∷ 0x71374491 ∷ 0xb5c0fbcf ∷ 0xe9b5dba5 ∷ 0x3956c25b ∷ 0x59f111f1 ∷ 0x923f82a4
    ∷ 0xab1c5ed5 ∷ 0xd807aa98 ∷ 0x12835b01 ∷ 0x243185be ∷ 0x550c7dc3 ∷ 0x72be5d74 ∷ 0x80deb1fe
    ∷ 0x9bdc06a7 ∷ 0xc19bf174 ∷ 0xe49b69c1 ∷ 0xefbe4786 ∷ 0x0fc19dc6 ∷ 0x240ca1cc ∷ 0x2de92c6f
    ∷ 0x4a7484aa ∷ 0x5cb0a9dc ∷ 0x76f988da ∷ 0x983e5152 ∷ 0xa831c66d ∷ 0xb00327c8 ∷ 0xbf597fc7
    ∷ 0xc6e00bf3 ∷ 0xd5a79147 ∷ 0x06ca6351 ∷ 0x14292967 ∷ 0x27b70a85 ∷ 0x2e1b2138 ∷ 0x4d2c6dfc
    ∷ 0x53380d13 ∷ 0x650a7354 ∷ 0x766a0abb ∷ 0x81c2c92e ∷ 0x92722c85 ∷ 0xa2bfe8a1 ∷ 0xa81a664b
    ∷ 0xc24b8b70 ∷ 0xc76c51a3 ∷ 0xd192e819 ∷ 0xd6990624 ∷ 0xf40e3585 ∷ 0x106aa070 ∷ 0x19a4c116
    ∷ 0x1e376c08 ∷ 0x2748774c ∷ 0x34b0bcb5 ∷ 0x391c0cb3 ∷ 0x4ed8aa4a ∷ 0x5b9cca4f ∷ 0x682e6ff3
    ∷ 0x748f82ee ∷ 0x78a5636f ∷ 0x84c87814 ∷ 0x8cc70208 ∷ 0x90befffa ∷ 0xa4506ceb ∷ 0xbef9a3f7
    ∷ 0xc67178f2 ∷ []

abbrev pub initial : List ℕ
initial =
    0x6a09e667 ∷ 0xbb67ae85 ∷ 0x3c6ef372 ∷ 0xa54ff53a ∷ 0x510e527f ∷ 0x9b05688c ∷ 0x1f83d9ab
    ∷ 0x5be0cd19 ∷ []

-- `wrapping_add`, `rotate_right`, `>>` and `!` of a `u32`
abbrev pub add32 : ℕ → ℕ → ℕ
add32 a b = (a + b) % 2 ^ 32

abbrev pub rotate_right : ℕ → ℕ → ℕ
rotate_right x n = x / 2 ^ n + x % 2 ^ n * 2 ^ (32 - n)

abbrev invert : ℕ → ℕ
invert x = 2 ^ 32 - 1 - x

abbrev pub xor3 : ℕ → ℕ → ℕ → ℕ
xor3 a b c = bit_xor (bit_xor a b) c

-- the words of a block
unfoldable pub words_in : Bytes → List ℕ
words_in (a ∷ b ∷ c ∷ d ∷ rest) = (a * 2 ^ 24 + b * 2 ^ 16 + c * 2 ^ 8 + d) ∷ words_in rest
words_in _ = []

-- the next of the words, `w` being those before it
unfoldable pub next_word : List ℕ → ℕ
next_word w =
    let i = length w in
    let x = get_or w (i - 15) 0 in
    let y = get_or w (i - 2) 0 in
    let s0 = xor3 (rotate_right x 7) (rotate_right x 18) (x / 2 ^ 3) in
    let s1 = xor3 (rotate_right y 17) (rotate_right y 19) (y / 2 ^ 10) in
    add32 (add32 (add32 (get_or w (i - 16) 0) s0) (get_or w (i - 7) 0)) s1

unfoldable pub schedule : ℕ → List ℕ → List ℕ
unfolding next_word
schedule zero w = w
schedule (suc n) w = schedule n (w ++ next_word w ∷ [])

pub record Working : Type 0 where
  pub a : ℕ
  pub b : ℕ
  pub c : ℕ
  pub d : ℕ
  pub e : ℕ
  pub f : ℕ
  pub g : ℕ
  pub h : ℕ

unfoldable pub round : ℕ → ℕ → Working → Working
round ki wi v =
    let s1 = xor3 (rotate_right v.e 6) (rotate_right v.e 11) (rotate_right v.e 25) in
    let ch = bit_xor (bit_and v.e v.f) (bit_and (invert v.e) v.g) in
    let t1 = add32 (add32 (add32 (add32 v.h s1) ch) ki) wi in
    let s0 = xor3 (rotate_right v.a 2) (rotate_right v.a 13) (rotate_right v.a 22) in
    let maj = xor3 (bit_and v.a v.b) (bit_and v.a v.c) (bit_and v.b v.c) in
    let t2 = add32 s0 maj in
    record {
      a = add32 t1 t2;
      b = v.a;
      c = v.b;
      d = v.c;
      e = add32 v.d t1;
      f = v.e;
      g = v.f;
      h = v.g;
    }

unfoldable pub rounds : List ℕ → List ℕ → Working → Working
unfolding round
rounds (ki ∷ ks) (wi ∷ ws) v = rounds ks ws (round ki wi v)
rounds [] ws v = v
rounds (ki ∷ ks) [] v = v

-- the working variables of a state of eight words
abbrev working : List ℕ → Working
working s = record {
  a = get_or s 0 0;
  b = get_or s 1 0;
  c = get_or s 2 0;
  d = get_or s 3 0;
  e = get_or s 4 0;
  f = get_or s 5 0;
  g = get_or s 6 0;
  h = get_or s 7 0;
}

abbrev pub added : List ℕ → List ℕ → List ℕ
added (s ∷ ss) (v ∷ vs) = add32 s v ∷ added ss vs
added [] vs = []
added (s ∷ ss) [] = s ∷ ss

abbrev pub unworking : Working → List ℕ
unworking v = v.a ∷ v.b ∷ v.c ∷ v.d ∷ v.e ∷ v.f ∷ v.g ∷ v.h ∷ []

unfoldable pub compress : List ℕ → Bytes → List ℕ
unfolding words_in schedule rounds
compress state block =
    added state (unworking (rounds k (schedule 48 (words_in block)) (working state)))
