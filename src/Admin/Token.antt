-- ===== src/Admin/Token.antt =====
-- `constant_time_eq` of src/admin.rs and src/installed.rs.
use Prim.Native.Nat.{bit_or, bit_xor}
use rescriptum.Prelude.{ℕ, Bool, false, not, [], ◌∷◌, Bytes, ◌==◌, if◌then◌else◌, length}

-- the loop over the pairs
unfoldable pub difference : ℕ → Bytes → Bytes → ℕ
difference diff [] _ = diff
difference diff (x ∷ a) [] = diff
difference diff (x ∷ a) (y ∷ b) = difference (bit_or diff (bit_xor x y)) a b

unfoldable pub constant_time_eq : Bytes → Bytes → Bool
unfolding difference
constant_time_eq a b = if not (length a == length b) then false else difference 0 a b == 0
