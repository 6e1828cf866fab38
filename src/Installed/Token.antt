-- ===== src/Installed/Token.antt =====
-- The token of a report (src/installed.rs). `from_slice` is `serde_json::from_slice`.
pub mod Padding
use Prim.Native.Nat.{bit_or, bit_xor}
use rescriptum.Prelude.{
  ℕ, ◌%◌, Bool, false, [], ◌∷◌, Option, none, some, Str, Bytes, ◌==◌, codes, length,
}
use rescriptum.Prelude.Utf8.{encode}
use rescriptum.Json.{Value, string, object}
use rescriptum.Format.Control.{get}

-- the loop over the longer of the two, which reads zeros behind the shorter
unfoldable pub fold_bytes : Bytes → Bytes → ℕ → ℕ
fold_bytes [] [] diff = diff
fold_bytes (x ∷ a) [] diff = fold_bytes a [] (bit_or diff (bit_xor x 0))
fold_bytes [] (y ∷ b) diff = fold_bytes [] b (bit_or diff (bit_xor 0 y))
fold_bytes (x ∷ a) (y ∷ b) diff = fold_bytes a b (bit_or diff (bit_xor x y))

-- `(a.len() ^ b.len()) as u8`, and the loop
unfoldable pub constant_time_eq : Bytes → Bytes → Bool
unfolding fold_bytes
constant_time_eq a b = fold_bytes a b (bit_xor (length a) (length b) % 256) == 0

abbrev text_of : Option Value → Option Str
text_of (some (string s)) = some s
text_of _ = none

abbrev token_field : Option Value → Option Str
token_field (some (object fields)) = text_of (get (codes "token") fields)
token_field _ = none

abbrev compare_token : Option Str → Str → Bool
compare_token none expected = false
compare_token (some found) expected = constant_time_eq (encode found) (encode expected)

module _ (from_slice : Bytes → Option Value) where
  unfoldable pub token_in : Bytes → Option Str
  unfolding get
  token_in body = token_field (from_slice body)

  unfoldable pub token_matches : Bytes → Str → Bool
  unfolding token_in constant_time_eq
  token_matches body expected = compare_token (token_in body) expected
