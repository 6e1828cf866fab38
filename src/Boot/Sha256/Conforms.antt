-- ===== src/Boot/Sha256/Conforms.antt =====
-- The compression of src/boot/sha256.rs computes what FIPS 180-4 defines, word by word.
use rescriptum.Prelude.{
  ℕ, zero, suc, ◌+◌, ◌-◌, ◌*◌, ◌/◌, ◌%◌, ◌^◌, List, [], ◌∷◌, ◌++◌, Bytes, get_or, length, take,
  drop, ◌≡◌, refl, sym, ap, ◌∙◌, arith,
}
use native.Mathlib.Nat.{div-div-eq-div-mul}
use rescriptum.Boot.Sha256.{be, words_out}
use rescriptum.Boot.Sha256.Compress.{
  Working, initial, k, rotate_right, words_in, next_word, schedule, round, rounds, compress, xor3,
  add32, added, unworking,
}
use rescriptum.Boot.Sha256.Absorb.{fold_blocks}
use rescriptum.Boot.Sha256.Standard.{
  Hash, words, first, constants, message, scheduled, extend, turn, turns, big_sigma0, big_sigma1,
  small_sigma0, small_sigma1, ch, maj, first_sum, second_sum, next_hash, hash_blocks, rotr,
  big_endian, bytes_of,
}

-- the constants are the roots of the primes
k-constants : k ≡ constants
unfolding constants
k-constants = refl

pub initial-first : initial ≡ words first
unfolding first
initial-first = refl

unfold_word :
    (a b c d : ℕ) → a * 2 ^ 24 + b * 2 ^ 16 + c * 2 ^ 8 + d ≡ ((a * 256 + b) * 256 + c) * 256 + d
unfold_word a b c d = omega arith

words_in-message : (b : Bytes) → words_in b ≡ message b
unfolding words_in message
words_in-message (a ∷ b ∷ c ∷ d ∷ rest) =
    ap (λ x. x ∷ words_in rest) (unfold_word a b c d)
    ∙ ap (λ xs. (((a * 256 + b) * 256 + c) * 256 + d) ∷ xs) (words_in-message rest)
words_in-message [] = refl
words_in-message (a ∷ []) = refl
words_in-message (a ∷ b ∷ []) = refl
words_in-message (a ∷ b ∷ c ∷ []) = refl

xor3_same : {a b c a' b' c' : ℕ} → a ≡ a' → b ≡ b' → c ≡ c' → xor3 a b c ≡ xor3 a' b' c'
xor3_same {a} {b} {c} {a'} {b'} {c'} p q r =
    ap (λ x. xor3 x b c) p ∙ ap (λ x. xor3 a' x c) q ∙ ap (xor3 a' b') r

big_sigma0_lem :
    (x : ℕ) → xor3 (rotate_right x 2) (rotate_right x 13) (rotate_right x 22) ≡ big_sigma0 x
big_sigma0_lem x =
    let r2 : rotate_right x 2 ≡ rotr 2 x = omega arith in
    let r13 : rotate_right x 13 ≡ rotr 13 x = omega arith in
    let r22 : rotate_right x 22 ≡ rotr 22 x = omega arith in xor3_same r2 r13 r22

big_sigma1_lem :
    (x : ℕ) → xor3 (rotate_right x 6) (rotate_right x 11) (rotate_right x 25) ≡ big_sigma1 x
big_sigma1_lem x =
    let r6 : rotate_right x 6 ≡ rotr 6 x = omega arith in
    let r11 : rotate_right x 11 ≡ rotr 11 x = omega arith in
    let r25 : rotate_right x 25 ≡ rotr 25 x = omega arith in xor3_same r6 r11 r25

small_sigma0_lem :
    (x : ℕ) → xor3 (rotate_right x 7) (rotate_right x 18) (x / 2 ^ 3) ≡ small_sigma0 x
small_sigma0_lem x =
    let r7 : rotate_right x 7 ≡ rotr 7 x = omega arith in
    let r18 : rotate_right x 18 ≡ rotr 18 x = omega arith in xor3_same r7 r18 refl

small_sigma1_lem :
    (x : ℕ) → xor3 (rotate_right x 17) (rotate_right x 19) (x / 2 ^ 10) ≡ small_sigma1 x
small_sigma1_lem x =
    let r17 : rotate_right x 17 ≡ rotr 17 x = omega arith in
    let r19 : rotate_right x 19 ≡ rotr 19 x = omega arith in xor3_same r17 r19 refl

next_word-scheduled : (w : List ℕ) → next_word w ≡ scheduled w
unfolding next_word
next_word-scheduled w =
    let t = length w in
    let x = get_or w (t - 15) 0 in
    let y = get_or w (t - 2) 0 in
    ap
      (λ s.
        add32 (add32 (add32 (get_or w (t - 16) 0) s) (get_or w (t - 7) 0))
          (xor3 (rotate_right y 17) (rotate_right y 19) (y / 2 ^ 10)))
      (small_sigma0_lem x)
    ∙ ap (add32 (add32 (add32 (get_or w (t - 16) 0) (small_sigma0 x)) (get_or w (t - 7) 0)))
        (small_sigma1_lem y)
    ∙ sums (get_or w (t - 16) 0) (small_sigma0 x) (get_or w (t - 7) 0) (small_sigma1 y)
  where
    sums : (a b c d : ℕ) → add32 (add32 (add32 a b) c) d ≡ (d + c + b + a) % 2 ^ 32
    sums a b c d = omega arith

schedule-extend : (n : ℕ) (w : List ℕ) → schedule n w ≡ extend n w
unfolding schedule extend
schedule-extend zero w = refl
schedule-extend (suc n) w =
    ap (λ x. schedule n (w ++ (x ∷ []))) (next_word-scheduled w)
    ∙ schedule-extend n (w ++ (scheduled w ∷ []))

-- the same eight variables
abbrev vars : Hash → Working
vars v = record { a = v.a; b = v.b; c = v.c; d = v.d; e = v.e; f = v.f; g = v.g; h = v.h }

abbrev replaced : Hash → ℕ → ℕ → Working
replaced v new_a new_e = record {
  a = new_a;
  b = v.a;
  c = v.b;
  d = v.c;
  e = new_e;
  f = v.e;
  g = v.f;
  h = v.g;
}

abbrev sum5 : ℕ → ℕ → ℕ → ℕ → ℕ → ℕ
sum5 a b c d e = add32 (add32 (add32 (add32 a b) c) d) e

sum_a :
    (a b c d e f g : ℕ)
    → add32 (sum5 a b c d e) (add32 f g) ≡ (a + b + c + d + e + (f + g)) % 2 ^ 32
sum_a a b c d e f g = omega arith

sum_e : (a b c d e v : ℕ) → add32 v (sum5 a b c d e) ≡ (v + (a + b + c + d + e)) % 2 ^ 32
sum_e a b c d e v = omega arith

round-turn : (kt wt : ℕ) (v : Hash) → round kt wt (vars v) ≡ vars (turn kt wt v)
unfolding round
round-turn kt wt v =
    let s1 = xor3 (rotate_right v.e 6) (rotate_right v.e 11) (rotate_right v.e 25) in
    let majority = maj v.a v.b v.c in
    let choice = ch v.e v.f v.g in
    ap
      (λ s.
        replaced v (add32 (sum5 v.h s1 choice kt wt) (add32 s majority))
          (add32 v.d (sum5 v.h s1 choice kt wt)))
      (big_sigma0_lem v.a)
    ∙ ap
        (λ s.
          replaced v (add32 (sum5 v.h s choice kt wt) (add32 (big_sigma0 v.a) majority))
            (add32 v.d (sum5 v.h s choice kt wt)))
        (big_sigma1_lem v.e)
    ∙ ap (λ x. replaced v x (add32 v.d (sum5 v.h (big_sigma1 v.e) choice kt wt)))
        (sum_a v.h (big_sigma1 v.e) choice kt wt (big_sigma0 v.a) majority)
    ∙ ap (replaced v ((first_sum kt wt v + second_sum v) % 2 ^ 32))
        (sum_e v.h (big_sigma1 v.e) choice kt wt v.d)

rounds-turns : (ks ws : List ℕ) (v : Hash) → rounds ks ws (vars v) ≡ vars (turns ks ws v)
unfolding rounds turns
rounds-turns [] ws v = refl
rounds-turns (kt ∷ ks) [] v = refl
rounds-turns (kt ∷ ks) (wt ∷ ws) v =
    ap (rounds ks ws) (round-turn kt wt v) ∙ rounds-turns ks ws (turn kt wt v)

compress-next_hash : (v : Hash) (b : Bytes) → compress (words v) b ≡ words (next_hash v b)
unfolding compress next_hash
compress-next_hash v b =
    ap (λ ks. after ks (schedule 48 (words_in b))) k-constants
    ∙ ap (λ ws. after constants ws)
        (ap (schedule 48) (words_in-message b) ∙ schedule-extend 48 (message b))
    ∙ ap (λ x. added (words v) (unworking x)) (rounds-turns constants (extend 48 (message b)) v)
  where
    after : List ℕ → List ℕ → List ℕ
    after ks ws = added (words v) (unworking (rounds ks ws (vars v)))

pub fold_blocks-hash_blocks :
    (n : ℕ) (v : Hash) (m : Bytes) → fold_blocks n (words v) m ≡ words (hash_blocks n v m)
unfolding fold_blocks hash_blocks
fold_blocks-hash_blocks zero v m = refl
fold_blocks-hash_blocks (suc n) v m =
    ap (λ s. fold_blocks n s (drop 64 m)) (compress-next_hash v (take 64 m))
    ∙ fold_blocks-hash_blocks n (next_hash v (take 64 m)) (drop 64 m)

-- the bytes of a number
be-snoc : (j n : ℕ) → be (suc j) n ≡ be j (n / 256) ++ (n % 256 ∷ [])
be-snoc zero n = ap (λ x. x % 256 ∷ []) (whole n)
  where
    whole : (n : ℕ) → n / 256 ^ 0 ≡ n
    whole n = omega arith
be-snoc (suc j) n =
    ap (λ x. x % 256 ∷ be (suc j) n)
      (sym (div-div-eq-div-mul n 256 (256 ^ j) ∙ ap (λ d. n / d) (power j)))
    ∙ ap (λ x. (n / 256 / 256 ^ j % 256) ∷ x) (be-snoc j n)
  where
    power : (j : ℕ) → 256 * 256 ^ j ≡ 256 ^ suc j
    power j = omega arith

pub be-big_endian : (j n : ℕ) → be j n ≡ big_endian j n
unfolding big_endian
be-big_endian zero n = refl
be-big_endian (suc j) n = be-snoc j n ∙ ap (λ x. x ++ (n % 256 ∷ [])) (be-big_endian j (n / 256))

pub words_out-bytes_of : (ws : List ℕ) → words_out ws ≡ bytes_of ws
unfolding bytes_of
words_out-bytes_of [] = refl
words_out-bytes_of (w ∷ ws) =
    ap (λ x. x ++ words_out ws) (be-big_endian 4 w)
    ∙ ap (λ x. big_endian 4 w ++ x) (words_out-bytes_of ws)
