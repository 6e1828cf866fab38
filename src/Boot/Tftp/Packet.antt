-- ===== src/Boot/Tftp/Packet.antt =====
-- The packets of src/boot/tftp.rs, as bytes.
use rescriptum.Prelude.{
  ℕ, ◌+◌, ◌*◌, ◌/◌, ◌%◌, ◌<◌, List, [], ◌∷◌, ◌++◌, Option, none, some, Bytes, ◌≡◌, arith,
}

abbrev pub op_rrq : ℕ
op_rrq = 1

abbrev pub op_wrq : ℕ
op_wrq = 2

abbrev pub op_data : ℕ
op_data = 3

abbrev pub op_ack : ℕ
op_ack = 4

abbrev pub op_error : ℕ
op_error = 5

abbrev pub op_oack : ℕ
op_oack = 6

abbrev pub err_not_found : ℕ
err_not_found = 1

abbrev pub err_access : ℕ
err_access = 2

abbrev pub err_illegal : ℕ
err_illegal = 4

abbrev pub err_no_user : ℕ
err_no_user = 7

-- `to_be_bytes` and `from_be_bytes` of a `u16`
abbrev pub be16 : ℕ → Bytes
be16 n = (n / 256 % 256) ∷ (n % 256) ∷ []

abbrev pub u16_of : ℕ → ℕ → ℕ
u16_of a b = a * 256 + b

-- the first two words of a packet, where it has four bytes
abbrev pub words : Bytes → Option (ℕ × ℕ)
words (a ∷ b ∷ c ∷ d ∷ _) = some (u16_of a b, u16_of c d)
words _ = none

unfoldable pub data_packet : ℕ → Bytes → Bytes
data_packet block chunk = be16 op_data ++ (be16 block ++ chunk)

unfoldable pub error_packet : ℕ → Bytes → Bytes
error_packet code message = be16 op_error ++ (be16 code ++ (message ++ 0 ∷ []))

abbrev option_bytes : List (Bytes × Bytes) → Bytes
option_bytes [] = []
option_bytes ((name, value) ∷ rest) = name ++ (0 ∷ (value ++ (0 ∷ option_bytes rest)))

unfoldable pub oack_packet : List (Bytes × Bytes) → Bytes
oack_packet accepted = 0 ∷ op_oack ∷ option_bytes accepted

pub words-data_packet :
    (block : ℕ) (chunk : Bytes)
    → block < 65536
    → words (data_packet block chunk) ≡ some (op_data, block)
unfolding data_packet
words-data_packet block chunk h = ground arith
