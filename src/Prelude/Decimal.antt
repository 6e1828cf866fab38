-- ===== src/Prelude/Decimal.antt =====
-- What the decimal print of a number looks like.
use Prim.Native.Nat.{ℕ, zero, suc, ◌+◌, ◌/◌, ◌%◌}
use mathlib.Core.List.{[], ◌∷◌}
use mathlib.Core.Bool.{true, false}
use mathlib.Core.Path.{◌≡◌, refl}
use mathlib.Core.Logic.{inl, inr}
use native.Mathlib.Omega.{arith}
use rescriptum.Prelude.Tests.{Bool-cases, ltb}
use rescriptum.Prelude.Lists.{all}
use rescriptum.Prelude.Text.{Str, is_ascii_digit, is_empty, decimal, digits_onto}

last_digit : (n : ℕ) → is_ascii_digit (b'0' + n % 10) ≡ true
last_digit n = ground arith

one_digit : (n : ℕ) → ltb n 10 ≡ true → is_ascii_digit (b'0' + n) ≡ true
one_digit n h = ground arith

digits_onto_digits :
    (fuel n : ℕ) (out : Str)
    → all is_ascii_digit out ≡ true
    → all is_ascii_digit (digits_onto fuel n out) ≡ true
digits_onto_digits zero n out h = h
digits_onto_digits (suc fuel) n out h = elim (Bool-cases (ltb n 10)) [
  | inl small ↦ rw small (rw (one_digit n small) h)
  | inr large ↦
      rw large (digits_onto_digits fuel (n / 10) ((b'0' + n % 10) ∷ out) (rw (last_digit n) h))
]

digits_onto_more : (fuel n c : ℕ) (out : Str) → is_empty (digits_onto fuel n (c ∷ out)) ≡ false
digits_onto_more zero n c out = refl
digits_onto_more (suc fuel) n c out = elim (Bool-cases (ltb n 10)) [
  | inl small ↦ rw small refl
  | inr large ↦ rw large (digits_onto_more fuel (n / 10) (b'0' + n % 10) (c ∷ out))
]

pub decimal_digits : (n : ℕ) → all is_ascii_digit (decimal n) ≡ true
unfolding decimal
decimal_digits n = digits_onto_digits (suc n) n [] refl

pub decimal_some : (n : ℕ) → is_empty (decimal n) ≡ false
unfolding decimal
decimal_some n = elim (Bool-cases (ltb n 10)) [
  | inl small ↦ rw small refl
  | inr large ↦ rw large (digits_onto_more n (n / 10) (b'0' + n % 10) [])
]
