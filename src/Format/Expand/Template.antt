-- ===== src/Format/Expand/Template.antt =====
-- The expansion of placeholders (src/format/mod.rs) ends.
use rescriptum.Prelude.{
  ℕ, zero, suc, ◌+◌, ◌<◌, [], ◌∷◌, ◌++◌, Option, none, some, Str, codes, contains, split_at,
  strip_prefix, trim, length, ◌≡◌, ◌≢◌, arith, Bool-cases, Option-cases, inl, inr, ap, ◌∙◌, any,
  all, is_empty, is_control,
}
use mathlib.Core.Path.{subst}
use rescriptum.Prelude.Result.{Result, ok, err, ◌>>=◌}
use rescriptum.Format.Expand.{Failure, stuck, is_key_char, value_of, expand_loop, expand}

strip_prefix-length :
    (pat s : Str) {r : Str} → strip_prefix pat s ≡ some r → length s ≡ length pat + length r
strip_prefix-length [] s {r} h = let e : s ≡ r = cc in ap length e ∙ (omega arith)
strip_prefix-length (p ∷ pat) [] h = cc
strip_prefix-length (p ∷ pat) (c ∷ s) {r} h = ground (arith, strip_prefix-length pat s {r = r})

parts_length :
    (n k : ℕ) {a b c d : Str}
    → ◌≡◌ {A = Option (Str × Str)} (some (a, b)) (some (c, d))
    → n ≡ length a + k + length b
    → n ≡ length c + k + length d
parts_length n k {a} {b} {c} {d} e h =
    let same : ◌≡◌ {A = Str × Str} (a, b) (c, d) = cc in
    subst (λ p. n ≡ length p.0 + k + length p.1) same h

split_at-length :
    (pat s : Str) {a r : Str}
    → split_at pat s ≡ some (a, r)
    → length s ≡ length a + length pat + length r
split_at-length pat [] {a} {r} h = elim (Option-cases (strip_prefix pat [])) [
  | inl absent ↦
      let bad : ◌≡◌ {A = Option (Str × Str)} none (some (a, r)) = rw (absent, split_at) at h in cc
  | inr (x, here) ↦
      parts_length 0 (length pat) (rw (here, split_at) at h)
        (ground (arith, strip_prefix-length pat [] here))
]
split_at-length pat (c ∷ s) {a} {r} h = elim (Option-cases (strip_prefix pat (c ∷ s))) [
  | inr (x, here) ↦
      parts_length (length (c ∷ s)) (length pat) (rw (here, split_at) at h)
        (ground (arith, strip_prefix-length pat (c ∷ s) here))
  | inl absent ↦ elim (Option-cases (split_at pat s)) [
    | inl nowhere ↦
        let bad : ◌≡◌ {A = Option (Str × Str)} none (some (a, r)) =
          rw (absent, nowhere, split_at) at h in
        cc
    | inr ((b, x), later) ↦
        parts_length (length (c ∷ s)) (length pat) (rw (absent, later, split_at) at h)
          (ground (arith, split_at-length pat s later))
  ]
]

-- a result whose failure is not that of a loop cut short
abbrev NotStuck : Result Failure Str → Type 0
NotStuck r = r ≢ err stuck

value_of_ended : (lookup : Str → Option Str) (key : Str) → NotStuck (value_of lookup key)
unfolding value_of
value_of_ended lookup key = elim (Bool-cases (is_empty key)) [
  | inl blank ↦ rw blank (λ h. cc)
  | inr named ↦ elim (Bool-cases (all is_key_char key)) [
    | inr odd ↦ rw (named, odd) (λ h. cc)
    | inl plain ↦ elim (Option-cases (lookup key)) [
      | inl absent ↦ rw (named, plain, absent) (λ h. cc)
      | inr (value, present) ↦ elim (Bool-cases (any is_control value)) [
        | inl unsafe ↦ rw (named, plain, present, unsafe) (λ h. cc)
        | inr safe ↦ rw (named, plain, present, safe) (λ h. cc)
      ]
    ]
  ]
]

bind_ended :
    (r : Result Failure Str) (next : Str → Result Failure Str)
    → NotStuck r
    → ((s : Str) → NotStuck (next s))
    → NotStuck (r >>= next)
bind_ended (ok s) next h k = k s
bind_ended (err e) next h k = h

expand_loop_ended :
    (fuel : ℕ) (lookup : Str → Option Str) (out rest : Str)
    → length rest < fuel
    → NotStuck (expand_loop fuel lookup out rest)
unfolding expand_loop
expand_loop_ended zero lookup out rest h = absurd (omega arith)
expand_loop_ended (suc fuel) lookup out rest h = elim (Option-cases (split_at (codes "{{") rest)) [
  | inl plain ↦ rw (plain, expand_loop) (λ p. cc)
  | inr ((before, after), opened) ↦ elim (Option-cases (split_at (codes "}}") after)) [
    | inl open_end ↦ rw (opened, open_end, expand_loop) (λ p. cc)
    | inr ((inside, behind), closed) ↦
        let a = split_at-length (codes "{{") rest opened in
        let b = split_at-length (codes "}}") after closed in
        rw (opened, closed, expand_loop)
          (bind_ended (value_of lookup (trim inside)) _ (value_of_ended lookup (trim inside))
            (λ value.
              expand_loop_ended fuel lookup (out ++ before ++ value) behind
                (omega (arith, a, b, h))))
  ]
]

-- Whatever the text and the values, the expansion of its placeholders ends within the rounds
-- provided.
pub expand_ended : (lookup : Str → Option Str) (text : Str) → expand lookup text ≢ err stuck
unfolding expand
expand_ended lookup text = elim (Bool-cases (contains text (codes "{{"))) [
  | inr plain ↦ rw plain (λ h. cc)
  | inl some_open ↦ rw some_open (expand_loop_ended (length text + 1) lookup [] text (omega arith))
]
