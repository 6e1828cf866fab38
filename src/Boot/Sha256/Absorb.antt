-- ===== src/Boot/Sha256/Absorb.antt =====
-- What the hasher of src/boot/sha256.rs holds of the bytes that it was fed.
use rescriptum.Prelude.{
  ℕ, zero, suc, ◌+◌, ◌-◌, ◌*◌, ◌/◌, ◌%◌, ◌^◌, ◌≤◌, ◌<◌, true, false, List, [], ◌∷◌, ◌++◌, Bytes,
  ltb, length, take, drop, min, ◌≡◌, refl, sym, ap, ◌∙◌, arith, Bool-cases, inl, inr, length-append,
  length-take, length-drop, append_assoc, append-nil, take-append-drop, take_all,
  take-append_within, drop-append_within, take-append_past, drop_all,
}
use mathlib.Core.Path.{subst}
use rescriptum.Boot.Patch.{copy_into}
use rescriptum.Boot.Sha256.{Sha256, new, flush, absorb, held, fill, update}
use rescriptum.Boot.Sha256.Compress.{initial, compress}

-- the state after the first `n` blocks of a message
unfoldable pub fold_blocks : ℕ → List ℕ → Bytes → List ℕ
fold_blocks zero s m = s
fold_blocks (suc n) s m = fold_blocks n (compress s (take 64 m)) (drop 64 m)

fold_blocks-snoc :
    (n : ℕ) (s : List ℕ) (p b : Bytes)
    → length p ≡ n * 64
    → length b ≡ 64
    → fold_blocks (suc n) s (p ++ b) ≡ compress (fold_blocks n s p) b
unfolding fold_blocks
fold_blocks-snoc zero s [] b hp hb = ap (compress s) (take_all 64 b (omega arith))
fold_blocks-snoc zero s (x ∷ p) b hp hb = absurd (omega arith)
fold_blocks-snoc (suc n) s p b hp hb =
    rw (take-append_within 64 p b (omega arith), drop-append_within 64 p b (omega arith))
      (fold_blocks-snoc n (compress s (take 64 p)) (drop 64 p) b (omega (arith, length-drop 64 p))
        hb)

-- The hasher has compressed whole blocks of the message, and holds the rest.
pub record Holds (h : Sha256) (m : Bytes) : Type 0 where
  pub blocks : ℕ
  pub prefix : Bytes
  pub rest : Bytes
  pub length_prefix : length prefix ≡ blocks * 64
  pub splits : m ≡ prefix ++ rest
  pub state_is : h.state ≡ fold_blocks blocks initial prefix
  pub length_block : length h.block ≡ 64
  pub rest_is : take h.buffered h.block ≡ rest
  pub buffered_is : h.buffered ≡ length rest

length-copy_into :
    (block : Bytes) (at : ℕ) (t : Bytes)
    → at + length t ≤ length block
    → length (copy_into block at t) ≡ length block
length-copy_into block at t h = omega (
  arith,
  length-append (take at block) (t ++ drop (at + length t) block),
  length-append t (drop (at + length t) block),
  length-take at block,
  length-drop (at + length t) block,
)

take-copy_into :
    (block : Bytes) (at : ℕ) (t : Bytes)
    → at + length t ≤ length block
    → take (at + length t) (copy_into block at t) ≡ take at block ++ t
take-copy_into block at t h =
    ap (take (at + length t)) (sym (append_assoc (take at block) t (drop (at + length t) block)))
    ∙ take-append_past (at + length t) (take at block ++ t) (drop (at + length t) block)
        (omega (arith, length-append (take at block) t, length-take at block))

-- more bytes behind those that are held
Holds-stash :
    (h : Sha256) (m t : Bytes) (at size : ℕ)
    → Holds h m
    → h.buffered ≡ at
    → size ≡ at + length t
    → size ≤ 64
    → Holds (record h { block = copy_into h.block at t; buffered = size }) (m ++ t)
Holds-stash h m t at size w e total fits = record {
  blocks = w.blocks;
  prefix = w.prefix;
  rest = w.rest ++ t;
  length_prefix = w.length_prefix;
  splits = ap (λ x. x ++ t) w.splits ∙ append_assoc w.prefix w.rest t;
  state_is = w.state_is;
  length_block = length-copy_into h.block at t (omega (arith, w.length_block)) ∙ w.length_block;
  rest_is =
      ap (λ n. take n (copy_into h.block at t)) total
      ∙ take-copy_into h.block at t (omega (arith, w.length_block))
      ∙ ap (λ x. x ++ t) (ap (λ n. take n h.block) (sym e) ∙ w.rest_is);
  buffered_is = omega (arith, length-append w.rest t, w.buffered_is);
}

pub Holds-flush : (h : Sha256) (m : Bytes) → Holds h m → h.buffered ≡ 64 → Holds (flush h) m
Holds-flush h m w full =
    let whole : h.block ≡ w.rest =
      sym (take_all h.buffered h.block (omega (arith, w.length_block))) ∙ w.rest_is in
    record {
      blocks = suc w.blocks;
      prefix = w.prefix ++ w.rest;
      rest = [];
      length_prefix = omega (arith, length-append w.prefix w.rest, w.length_prefix, w.buffered_is);
      splits = w.splits ∙ sym (append-nil (w.prefix ++ w.rest));
      state_is =
          ap (λ s. compress s h.block) w.state_is
          ∙ ap (compress (fold_blocks w.blocks initial w.prefix)) whole
          ∙ sym (
              fold_blocks-snoc w.blocks initial w.prefix w.rest w.length_prefix
                (omega (arith, w.buffered_is)));
      length_block = w.length_block;
      rest_is = refl;
      buffered_is = refl;
    }

-- a block that is compressed straight away
Holds-block :
    (h : Sha256) (m b : Bytes)
    → Holds h m
    → h.buffered ≡ 0
    → length b ≡ 64
    → Holds (record h { state = compress h.state b }) (m ++ b)
Holds-block h m b w empty full =
    let none_held : w.rest ≡ [] = sym w.rest_is ∙ ap (λ n. take n h.block) empty in
    let so_far : m ≡ w.prefix =
      w.splits ∙ ap (λ x. w.prefix ++ x) none_held ∙ append-nil w.prefix in
    record {
      blocks = suc w.blocks;
      prefix = w.prefix ++ b;
      rest = [];
      length_prefix = omega (arith, length-append w.prefix b, w.length_prefix);
      splits = ap (λ x. x ++ b) so_far ∙ sym (append-nil (w.prefix ++ b));
      state_is =
          ap (λ s. compress s b) w.state_is
          ∙ sym (fold_blocks-snoc w.blocks initial w.prefix b w.length_prefix full);
      length_block = w.length_block;
      rest_is = ap (λ n. take n h.block) empty;
      buffered_is = empty;
    }

abbrev pub Ready : Sha256 → Bytes → Type 0
Ready h m = Holds h m × (h.buffered < 64)

absorb-Ready :
    (n : ℕ) (h : Sha256) (m t : Bytes)
    → Holds h m
    → h.buffered ≡ 0
    → length t / 64 ≡ n
    → Ready (absorb n h t) (m ++ t)
unfolding absorb
absorb-Ready zero h m t w empty e =
    (Holds-stash h m t 0 (length t) w empty (omega arith) (omega arith), omega arith)
absorb-Ready (suc n) h m t w empty e =
    let b = take 64 t in
    let joined : (m ++ b) ++ drop 64 t ≡ m ++ t =
      append_assoc m b (drop 64 t) ∙ ap (λ x. m ++ x) (take-append-drop 64 t) in
    subst (Ready (absorb n (record h { state = compress h.state b }) (drop 64 t))) joined (
      absorb-Ready n (record h { state = compress h.state b }) (m ++ b) (drop 64 t)
        (Holds-block h m b w empty (omega (arith, length-take 64 t))) empty
        (omega (arith, length-drop 64 t)))

tests_lt : (a b : ℕ) → ltb a b ≡ true → a < b
tests_lt a b h = ground arith

tests_ge : (a b : ℕ) → ltb a b ≡ false → b ≤ a
tests_ge a b h = ground arith

pub Holds-held :
    (h : Sha256) (m t : Bytes) → Holds h m → h.buffered + length t ≤ 64 → Holds (held h t) (m ++ t)
Holds-held h m t w fits = Holds-stash h m t h.buffered (h.buffered + length t) w refl refl fits

fill-Ready : (h : Sha256) (m t : Bytes) → Ready h m → Ready (fill h t) (m ++ t)
unfolding fill
fill-Ready h m t (w, short) =
    let room = min (64 - h.buffered) (length t) in
    let first = take room t in
    let full = held h first in
    let more = Holds-held h m first w (omega (arith, length-take room t)) in
    let joined : (m ++ first) ++ drop room t ≡ m ++ t =
      append_assoc m first (drop room t) ∙ ap (λ x. m ++ x) (take-append-drop room t) in
    elim (Bool-cases (ltb full.buffered 64)) [
      | inl still ↦
          let all_in : drop room t ≡ [] =
            drop_all room t (omega (arith, tests_lt full.buffered 64 still, length-take room t)) in
          let done : m ++ first ≡ m ++ t =
            sym (append-nil (m ++ first)) ∙ ap (λ x. (m ++ first) ++ x) (sym all_in) ∙ joined in
          rw still (subst (Holds full) done more, tests_lt full.buffered 64 still)
      | inr filled ↦ rw filled (
          subst (Ready (absorb (length (drop room t) / 64) (flush full) (drop room t))) joined (
            absorb-Ready (length (drop room t) / 64) (flush full) (m ++ first) (drop room t)
              (Holds-flush full (m ++ first) more
                (omega (arith, tests_ge full.buffered 64 filled, length-take room t)))
              refl refl))
    ]

-- what holds between two calls: the bytes, and how many they are
pub record Fed (h : Sha256) (m : Bytes) : Type 0 where
  pub ready : Ready h m
  pub counted : h.bits ≡ length m * 8 % 2 ^ 64

recount : (h : Sha256) (m : Bytes) (n : ℕ) → Ready h m → Ready (record h { bits = n }) m
recount h m n (w, short) = (
  record {
    blocks = w.blocks;
    prefix = w.prefix;
    rest = w.rest;
    length_prefix = w.length_prefix;
    splits = w.splits;
    state_is = w.state_is;
    length_block = w.length_block;
    rest_is = w.rest_is;
    buffered_is = w.buffered_is;
  },
  short,
)

bits-absorb : (n : ℕ) (h : Sha256) (t : Bytes) → (absorb n h t).bits ≡ h.bits
unfolding absorb
bits-absorb zero h t = refl
bits-absorb (suc n) h t =
    bits-absorb n (record h { state = compress h.state (take 64 t) }) (drop 64 t)

bits-fill : (h : Sha256) (t : Bytes) → (fill h t).bits ≡ h.bits
unfolding fill
bits-fill h t =
    let room = min (64 - h.buffered) (length t) in
    elim (Bool-cases (ltb (h.buffered + length (take room t)) 64)) [
      | inl still ↦ rw still refl
      | inr filled ↦
          rw filled
            (bits-absorb (length (drop room t) / 64) (flush (held h (take room t))) (drop room t))
    ]

pub update-Fed : (h : Sha256) (m t : Bytes) → Fed h m → Fed (update h t) (m ++ t)
unfolding update
update-Fed h m t fed =
    let total = (h.bits + length t * 8) % 2 ^ 64 in
    let counting : total ≡ length (m ++ t) * 8 % 2 ^ 64 =
      omega (arith, fed.counted, length-append m t) in
    let (w, short) = recount h m total fed.ready in
    elim (Bool-cases (ltb 0 h.buffered)) [
      | inl holding ↦ rw holding (record {
        ready = fill-Ready (record h { bits = total }) m t (w, short);
        counted = bits-fill (record h { bits = total }) t ∙ counting;
      })
      | inr none_held ↦ rw none_held (record {
        ready =
            absorb-Ready (length t / 64) (record h { bits = total }) m t w
              (omega (arith, tests_ge 0 h.buffered none_held)) refl;
        counted = bits-absorb (length t / 64) (record h { bits = total }) t ∙ counting;
      })
    ]

pub new-Fed : Fed new []
unfolding fold_blocks
new-Fed = record {
  ready = (
    record {
      blocks = 0;
      prefix = [];
      rest = [];
      length_prefix = refl;
      splits = refl;
      state_is = refl;
      length_block = refl;
      rest_is = refl;
      buffered_is = refl;
    },
    omega arith,
  );
  counted = refl;
}
