-- ===== src/Admin/Guard/Blocks.antt =====
-- What a lockout is and how it ends.
use rescriptum.Prelude.{
  true, ap, ◌∙◌, ◌&&◌, not, length, leb, ltb, ◌-◌, ◌<◌, ◌+◌, ℕ, zero, suc, ◌^◌, ◌≤◌, false, [], ◌∷◌,
  Option, none, some, ◌==◌, is_some, ◌≡◌, ◌≢◌, refl, arith, Bool-cases, inl, inr, min,
}
use mathlib.Core.Path.{subst}
use rescriptum.Admin.Guard.{
  punish, max_failures, failure, sweep, counted, default_entry, max_tracked, max_block, base_block,
  Failures, Entries, get, put, remove, blocked, blocked_entry, left_of, block_for, success, forgive,
  cleared,
}

get-put_same : (ip : ℕ) (f : Failures) (m : Entries) → get ip (put ip f m) ≡ some f
unfolding get put
get-put_same ip f [] = ground arith
get-put_same ip f ((i, g) ∷ m) = ground (arith, get-put_same ip f m)

get-put_other : (ip j : ℕ) (f : Failures) (m : Entries) → ip ≢ j → get j (put ip f m) ≡ get j m
unfolding get put
get-put_other ip j f [] h = ground arith
get-put_other ip j f ((i, g) ∷ m) h = ground (arith, get-put_other ip j f m h)

get-remove_same : (ip : ℕ) (m : Entries) → get ip (remove ip m) ≡ none
unfolding get remove
get-remove_same ip [] = refl
get-remove_same ip ((i, g) ∷ m) = ground (arith, get-remove_same ip m)

get-remove_other : (ip j : ℕ) (m : Entries) → ip ≢ j → get j (remove ip m) ≡ get j m
unfolding get remove
get-remove_other ip j [] h = refl
get-remove_other ip j ((i, g) ∷ m) h = ground (arith, get-remove_other ip j m h)

pow_pos : (n : ℕ) → 1 ≤ 2 ^ n
pow_pos zero = ground arith
pow_pos (suc n) = ground (arith, pow_pos n)

no_time : (o : Option ℕ) → is_some o ≡ false → none ≡ o
no_time none h = refl
no_time (some n) h = cc

-- The lockout doubles from one minute and stops at fifteen.
block_for-bounds : (n : ℕ) → (base_block ≤ block_for n) × (block_for n ≤ max_block)
unfolding block_for
block_for-bounds n = let big = pow_pos (min n 4) in (ground arith, ground arith)

forgive-blocked :
    (m : Entries) (now ip j : ℕ) (o : Option Failures)
    → get ip m ≡ o
    → blocked (forgive m now ip o) now j ≡ blocked m now j
unfolding blocked
forgive-blocked m now ip j none e = refl
forgive-blocked m now ip j (some f) e = elim (Bool-cases (is_some (left_of now f.blocked_until))) [
  | inl still ↦ rw still (elim (Bool-cases (ip == j)) [
    | inl same ↦
        let e2 : ip ≡ j = ground arith in
        subst (λ x. blocked_entry now (get x (put ip (cleared f) m)) ≡ blocked_entry now (get x m))
          e2 (rw (get-put_same ip (cleared f) m, e) refl)
    | inr other ↦ rw (get-put_other ip j (cleared f) m (ground arith)) refl
  ])
  | inr over ↦ rw over (elim (Bool-cases (ip == j)) [
    | inl same ↦
        let e2 : ip ≡ j = ground arith in
        subst (λ x. blocked_entry now (get x (remove ip m)) ≡ blocked_entry now (get x m)) e2
          (rw (get-remove_same ip m, e) (no_time (left_of now f.blocked_until) over))
    | inr other ↦ rw (get-remove_other ip j m (ground arith)) refl
  ])
]

-- A correct token lifts no lockout and shortens none: for every address, what is left of its
-- lockout is after the success what it was before.
pub blocked-success :
    (m : Entries) (now ip j : ℕ) → blocked (success m now ip) now j ≡ blocked m now j
unfolding success
blocked-success m now ip j = forgive-blocked m now ip j (get ip m) refl

left_of_later : (now d : ℕ) → 0 < d → left_of now (some (now + d)) ≡ some d
left_of_later now d pos =
    let later : ltb now (now + d) ≡ true = ground arith in
    let rest : now + d - now ≡ d = omega arith in rw (later, rest) refl

-- an entry that earns a lockout has it from now on, and it is a minute at least
punish_earned :
    (now : ℕ) (f : Failures) {d : ℕ}
    → (punish now f).1 ≡ some d
    → (left_of now (punish now f).0.blocked_until ≡ some d) × (base_block ≤ d) × (d ≤ max_block)
unfolding punish
punish_earned now f {d} h = elim (Bool-cases (leb max_failures f.count)) [
  | inr few ↦ let bad : none ≡ some d = rw few at h in cc
  | inl many ↦
      let e : some (block_for f.blocks) ≡ some d = rw many at h in
      let same : block_for f.blocks ≡ d = cc in
      let (low, high) = block_for-bounds f.blocks in
      rw many (
        left_of_later now (block_for f.blocks) (omega (arith, low)) ∙ e,
        omega (arith, low, same),
        omega (arith, high, same),
      )
]

-- A failed attempt that is answered with a lockout leaves its address locked out for exactly that
-- long, which is between one and fifteen minutes.
pub blocked-failure :
    (m : Entries) (now ip : ℕ) {d : ℕ}
    → (failure m now ip).1 ≡ some d
    → (blocked (failure m now ip).0 now ip ≡ some d) × (base_block ≤ d) × (d ≤ max_block)
unfolding failure blocked
blocked-failure m now ip {d} h =
    let swept = sweep now m in
    let f = counted now (default_entry (get ip swept)) in
    elim (Bool-cases (leb max_tracked (length swept) && not (is_some (get ip swept)))) [
      | inl full ↦ let bad : none ≡ some d = rw full at h in cc
      | inr room ↦
          let e : (punish now f).1 ≡ some d = rw room at h in
          let (left, low, high) = punish_earned now f e in
          rw room
            (ap (blocked_entry now) (get-put_same ip (punish now f).0 swept) ∙ left, low, high)
    ]
