-- ===== src/Boot/Sha256/Digest.antt =====
-- The digest of src/boot/sha256.rs is that of the standard, however the message is fed.
use rescriptum.Prelude.{
  ℕ, zero, suc, ◌+◌, ◌-◌, ◌*◌, ◌/◌, ◌%◌, ◌^◌, ◌<◌, List, [], ◌∷◌, ◌++◌, some, Bytes, ◌==◌, length,
  replicate, take, ◌≡◌, ◌≢◌, refl, sym, ap, ◌∙◌, arith, Bool-cases, inl, inr, length-append,
  append_assoc, append-nil,
}
use mathlib.Core.Path.{subst}
use mathlib.Core.List.{foldl}
use rescriptum.Boot.Sha256.{
  Sha256, new, held, update, pad, pad_zeros, pad_all, be, words_out, lengthen, finish,
}
use rescriptum.Boot.Sha256.Compress.{initial}
use rescriptum.Boot.Sha256.Standard.{
  first, words, hash_blocks, bytes_of, zero_count, padded, reference,
}
use rescriptum.Boot.Sha256.Conforms.{
  initial-first, fold_blocks-hash_blocks, be-big_endian, words_out-bytes_of,
}
use rescriptum.Boot.Sha256.Absorb.{
  fold_blocks, Holds, Ready, Fed, Holds-held, Holds-flush, update-Fed, new-Fed,
}

pad-Ready :
    (h : Sha256) (m : Bytes) (b : ℕ)
    → Ready h m
    → Ready (pad h b) (m ++ b ∷ []) × ((pad h b).buffered ≡ (h.buffered + 1) % 64)
unfolding pad
pad-Ready h m b (w, short) =
    let longer = Holds-held h m (b ∷ []) w (omega arith) in
    elim (Bool-cases (h.buffered + 1 == 64)) [
      | inl full ↦
          let e : h.buffered + 1 ≡ 64 = ground arith in
          rw full ((Holds-flush (held h (b ∷ [])) (m ++ b ∷ []) longer e, omega arith), omega arith)
      | inr room ↦
          let below : h.buffered + 1 < 64 = ground arith in rw room ((longer, below), omega arith)
    ]

-- how many zeros the loop adds
abbrev missing : ℕ → ℕ
missing n = (120 - n) % 64

pad_zeros-Ready :
    (fuel : ℕ) (h : Sha256) (m : Bytes)
    → Ready h m
    → missing h.buffered < fuel
    → (g : Sha256) × (pad_zeros fuel h ≡ some g)
      × Ready g (m ++ replicate (missing h.buffered) 0)
      × (g.buffered ≡ 56)
unfolding pad_zeros
pad_zeros-Ready zero h m r enough = absurd (omega arith)
pad_zeros-Ready (suc fuel) h m r enough = elim (Bool-cases (h.buffered == 56)) [
  | inl there ↦
      let at : h.buffered ≡ 56 = ground arith in
      let nothing : missing h.buffered ≡ 0 = omega arith in
      let same : m ≡ m ++ replicate (missing h.buffered) 0 =
        sym (append-nil m) ∙ ap (λ n. m ++ replicate n 0) (sym nothing) in
      (h, rw (there, pad_zeros) refl, subst (Ready h) same r, at)
  | inr more ↦
      let away : h.buffered ≢ 56 = ground arith in
      let (next, at) = pad-Ready h m 0 r in
      let fewer : missing h.buffered ≡ suc (missing (pad h 0).buffered) = omega (arith, r.1) in
      let (g, e, ready, done) = pad_zeros-Ready fuel (pad h 0) (m ++ 0 ∷ []) next (omega arith) in
      let same : (m ++ 0 ∷ []) ++ replicate (missing (pad h 0).buffered) 0
          ≡ m ++ replicate (missing h.buffered) 0 =
        append_assoc m (0 ∷ []) (replicate (missing (pad h 0).buffered) 0)
        ∙ ap (λ n. m ++ replicate n 0) (sym fewer) in
      (g, rw (more, pad_zeros) e, subst (Ready g) same ready, done)
]

pad_all-Ready :
    (bytes : Bytes) (h : Sha256) (m : Bytes)
    → Ready h m
    → Ready (pad_all h bytes) (m ++ bytes)
      × ((pad_all h bytes).buffered ≡ (h.buffered + length bytes) % 64)
unfolding pad_all
pad_all-Ready [] h m r = (subst (Ready h) (sym (append-nil m)) r, omega (arith, r.1))
pad_all-Ready (b ∷ bytes) h m r =
    let (next, at) = pad-Ready h m b r in
    let (ready, e) = pad_all-Ready bytes (pad h b) (m ++ b ∷ []) next in
    (
      subst (Ready (pad_all (pad h b) bytes)) (append_assoc m (b ∷ []) bytes) ready,
      omega (arith, e, at),
    )

-- a hasher that holds nothing has the state of all the blocks
whole-state :
    (h : Sha256) (m : Bytes)
    → Holds h m
    → h.buffered ≡ 0
    → h.state ≡ fold_blocks (length m / 64) initial m
whole-state h m w empty =
    let none_held : w.rest ≡ [] = sym w.rest_is ∙ ap (λ n. take n h.block) empty in
    let so_far : m ≡ w.prefix =
      w.splits ∙ ap (λ x. w.prefix ++ x) none_held ∙ append-nil w.prefix in
    let many : w.blocks ≡ length m / 64 = omega (arith, w.length_prefix, ap length so_far) in
    w.state_is
    ∙ ap (λ n. fold_blocks n initial w.prefix) many
    ∙ ap (fold_blocks (length m / 64) initial) (sym so_far)

buffered-Fed : (h : Sha256) (m : Bytes) → Fed h m → h.buffered ≡ length m % 64
buffered-Fed h m fed =
    let (w, short) = fed.ready in
    omega (arith, ap length w.splits, length-append w.prefix w.rest, w.length_prefix, w.buffered_is)

-- the state of the blocks of a message, as the standard has it
words_out-fold_blocks :
    (n : ℕ) (m : Bytes)
    → words_out (fold_blocks n initial m) ≡ bytes_of (words (hash_blocks n first m))
words_out-fold_blocks n m =
    words_out-bytes_of (fold_blocks n initial m)
    ∙ ap (λ s. bytes_of (fold_blocks n s m)) initial-first
    ∙ ap bytes_of (fold_blocks-hash_blocks n first m)

finish-Fed : (h : Sha256) (m : Bytes) → Fed h m → finish h ≡ some (reference m)
unfolding finish reference padded
finish-Fed h m fed =
    let (one, at_one) = pad-Ready h m 0x80 fed.ready in
    let held_so_far = buffered-Fed h m fed in
    let (g, ends, ready, at) = pad_zeros-Ready 64 (pad h 0x80) (m ++ 0x80 ∷ []) one (omega arith) in
    let zeros : Bytes = replicate (missing (pad h 0x80).buffered) 0 in
    let count = be 8 (length m * 8 % 2 ^ 64) in
    let (last, empty) = pad_all-Ready count g ((m ++ 0x80 ∷ []) ++ zeros) ready in
    let zeros_same : missing (pad h 0x80).buffered ≡ zero_count (length m) =
      omega (arith, at_one, held_so_far) in
    let joined : ((m ++ 0x80 ∷ []) ++ zeros) ++ count ≡ padded m =
      append_assoc (m ++ 0x80 ∷ []) zeros count
      ∙ append_assoc m (0x80 ∷ []) (zeros ++ count)
      ∙ ap (λ n. m ++ 0x80 ∷ (replicate n 0 ++ count)) zeros_same
      ∙ ap (λ c. m ++ 0x80 ∷ (replicate (zero_count (length m)) 0 ++ c))
          (be-big_endian 8 (length m * 8 % 2 ^ 64)) in
    let state_same =
      whole-state (pad_all g count) (((m ++ 0x80 ∷ []) ++ zeros) ++ count) last.0
        (empty ∙ (omega (arith, at))) in
    ap (lengthen h.bits) ends
    ∙ ap (λ n. some (words_out (pad_all g (be 8 n)).state)) fed.counted
    ∙ ap (λ s. some (words_out s))
        (state_same ∙ ap (λ x. fold_blocks (length x / 64) initial x) joined)
    ∙ ap some (words_out-fold_blocks (length (padded m) / 64) (padded m))

unfoldable pub concat : List Bytes → Bytes
concat [] = []
concat (c ∷ cs) = c ++ concat cs

foldl-Fed :
    (h : Sha256) (m : Bytes) (cs : List Bytes) → Fed h m → Fed (foldl update h cs) (m ++ concat cs)
unfolding concat
foldl-Fed h m [] fed = subst (Fed h) (sym (append-nil m)) fed
foldl-Fed h m (c ∷ cs) fed =
    subst (Fed (foldl update (update h c) cs)) (append_assoc m c (concat cs))
      (foldl-Fed (update h c) (m ++ c) cs (update-Fed h m c fed))

-- However a message is cut into calls of `update`, `finish` ends and gives the digest that FIPS 180-4
-- defines on the whole message: the standard's own padding, constants, message schedule and rounds,
-- written down apart from the code.
pub finish-update : (cs : List Bytes) → finish (foldl update new cs) ≡ some (reference (concat cs))
finish-update cs = finish-Fed (foldl update new cs) (concat cs) (foldl-Fed new [] cs new-Fed)
