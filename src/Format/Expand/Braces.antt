-- ===== src/Format/Expand/Braces.antt =====
-- The rounds of the loop of `expand` (src/format/mod.rs), and where it finds braces.
use rescriptum.Prelude.{
  ℕ, suc, ◌+◌, Bool, true, false, not, [], ◌∷◌, ◌++◌, Option, none, some, Str, codes, ◌==◌,
  contains, split_at, strip_prefix, trim, length, ◌≡◌, refl, arith, Bool-cases, Option-cases, inl,
  inr, ap, ◌∙◌, any, if◌then◌else◌,
}
use rescriptum.Prelude.Result.{ok, ◌>>=◌}
use rescriptum.Format.Expand.{value_of, expand_loop, expand}

-- a text with a character
abbrev pub has : ℕ → Str → Bool
has b = any (λ c. c == b)

strip_pair : (b : ℕ) (t : Str) → strip_prefix (b ∷ b ∷ []) (b ∷ b ∷ t) ≡ some t
strip_pair b t =
    let same : (b == b) ≡ true = ground arith in
    ap (λ x. if x then strip_prefix (b ∷ []) (b ∷ t) else none) same
    ∙ ap (λ x. if x then some t else none) same

strip_other : (b c : ℕ) (s : Str) → (c == b) ≡ false → strip_prefix (b ∷ b ∷ []) (c ∷ s) ≡ none
strip_other b c s h =
    let other : (b == c) ≡ false = ground (arith, h) in
    ap (λ x. if x then strip_prefix (b ∷ []) s else none) other

-- a pair of braces is found behind text that has none of them
pub split_at-here :
    (b : ℕ) (s t : Str) → has b s ≡ false → split_at (b ∷ b ∷ []) (s ++ (b ∷ b ∷ t)) ≡ some (s, t)
split_at-here b [] t h = rw (strip_pair b t, split_at) refl
split_at-here b (c ∷ s) t h =
    let other : (c == b) ≡ false = ground (arith, h) in
    let rest : has b s ≡ false = ground (arith, h) in
    rw (strip_other b c (s ++ (b ∷ b ∷ t)) other, split_at-here b s t rest, split_at) refl

pub split_at-none : (b : ℕ) (s : Str) → has b s ≡ false → split_at (b ∷ b ∷ []) s ≡ none
split_at-none b [] h = refl
split_at-none b (c ∷ s) h =
    let other : (c == b) ≡ false = ground (arith, h) in
    let rest : has b s ≡ false = ground (arith, h) in
    rw (strip_other b c s other, split_at-none b s rest, split_at) refl

pub has-append : (b : ℕ) (s t : Str) → has b s ≡ false → has b t ≡ false → has b (s ++ t) ≡ false
has-append b [] t h k = k
has-append b (c ∷ s) t h k = ground (arith, has-append b s t)

-- the rounds of the loop
module _ (lookup : Str → Option Str) where
  pub loop-end :
      (fuel : ℕ) (out s : Str)
      → has b'{' s ≡ false
      → expand_loop (suc fuel) lookup out s ≡ ok (out ++ s)
  unfolding expand_loop
  loop-end fuel out s h = rw (split_at-none b'{' s h, expand_loop) refl

  pub loop-hole :
      (fuel : ℕ) (out s raw behind : Str)
      → has b'{' s ≡ false
      → has b'}' raw ≡ false
      → expand_loop (suc fuel) lookup out (s ++ (b'{' ∷ b'{' ∷ (raw ++ (b'}' ∷ b'}' ∷ behind)))) ≡ (
          value_of lookup (trim raw) >>= λ value.
          expand_loop fuel lookup (out ++ s ++ value) behind)
  unfolding expand_loop
  loop-hole fuel out s raw behind h k =
      rw
        (
          split_at-here b'{' s (raw ++ (b'}' ∷ b'}' ∷ behind)) h,
          split_at-here b'}' raw behind k,
          expand_loop,
        )
        refl

pub contains-split_at : (pat s : Str) → contains s pat ≡ false → split_at pat s ≡ none
contains-split_at pat [] h = elim (Option-cases (strip_prefix pat [])) [
  | inl gone ↦ rw (gone, split_at) refl
  | inr (r, there) ↦
      let no : true ≡ false = rw (there, contains) at h in absurd (ground (arith, no))
]
contains-split_at pat (c ∷ s) h = elim (Option-cases (strip_prefix pat (c ∷ s))) [
  | inl gone ↦
      let later : contains s pat ≡ false = rw (gone, contains) at h in
      rw (gone, contains-split_at pat s later, split_at) refl
  | inr (r, there) ↦
      let no : true ≡ false = rw (there, contains) at h in absurd (ground (arith, no))
]

pub expand-loop :
    (lookup : Str → Option Str) (text : Str)
    → expand lookup text ≡ expand_loop (suc (length text)) lookup [] text
unfolding expand expand_loop
expand-loop lookup text =
    let one_more : length text + 1 ≡ suc (length text) = omega arith in
    elim (Bool-cases (contains text (codes "{{"))) [
      | inl braces ↦
          ap (λ b. if not b then ok text else expand_loop (length text + 1) lookup [] text) braces
          ∙ ap (λ n. expand_loop n lookup [] text) one_more
      | inr plain ↦
          ap (λ b. if not b then ok text else expand_loop (length text + 1) lookup [] text) plain
          ∙ rw (contains-split_at (codes "{{") text plain, expand_loop) refl
    ]
