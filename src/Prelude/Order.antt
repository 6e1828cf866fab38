-- ===== src/Prelude/Order.antt =====
-- The order of `String` is a strict order whose negation is transitive.
use mathlib.Core.List.{[], ◌∷◌}
use mathlib.Core.Bool.{true, false}
use mathlib.Core.Path.{◌≡◌, refl}
use native.Mathlib.Omega.{arith}
use rescriptum.Prelude.Text.{Str, str_ltb}

pub str_ltb_asym : (a b : Str) → str_ltb a b ≡ true → str_ltb b a ≡ false
str_ltb_asym [] [] h = ground arith
str_ltb_asym [] (y ∷ b) h = ground arith
str_ltb_asym (x ∷ a) [] h = ground arith
str_ltb_asym (x ∷ a) (y ∷ b) h = ground (arith, str_ltb_asym a b)

pub str_ltb_negative :
    (a b c : Str) → str_ltb a b ≡ false → str_ltb b c ≡ false → str_ltb a c ≡ false
str_ltb_negative [] [] [] h k = ground arith
str_ltb_negative [] [] (z ∷ c) h k = ground arith
str_ltb_negative [] (y ∷ b) c h k = ground arith
str_ltb_negative (x ∷ a) b [] h k = ground arith
str_ltb_negative (x ∷ a) [] (z ∷ c) h k = ground arith
str_ltb_negative (x ∷ a) (y ∷ b) (z ∷ c) h k = ground (arith, str_ltb_negative a b c)

pub str_ltb_irrefl : (a : Str) → str_ltb a a ≡ false
str_ltb_irrefl [] = refl
str_ltb_irrefl (x ∷ a) = ground (arith, str_ltb_irrefl a)
