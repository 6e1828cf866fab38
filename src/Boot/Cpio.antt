-- ===== src/Boot/Cpio.antt =====
-- src/boot/cpio.rs: what surrounds one member of a "newc" archive.
pub mod Layout
use rescriptum.Prelude.{
  ℕ, zero, suc, ◌+◌, ◌-◌, ◌*◌, ◌/◌, ◌%◌, ◌^◌, Bool, true, false, ◌||◌, List, [], ◌∷◌, ◌++◌, Bytes,
  Str, ◌==◌, codes, ltb, if◌then◌else◌, is_empty, any, length, take, replicate,
}
use rescriptum.Prelude.Result.{Result, ok, err}
use rescriptum.Prelude.Utf8.{encode}

abbrev pub max_member : ℕ
max_member = 0xffff_ffff

abbrev pub magic : Bytes
magic = codes "070701"

abbrev pub header_length : ℕ
header_length = 110

abbrev pub mode_file : ℕ
mode_file = 0o100644

pub record Member : Type 0 where
  pub prefix : Bytes
  pub padding : ℕ

unfoldable pub member_length : Member → ℕ → ℕ
member_length m data_length = length m.prefix + data_length + m.padding

pub data Refusal : Type 0 where
  too_large unusable_name : Refusal

unfoldable pub align4 : ℕ → ℕ
align4 n = (n + 3) / 4 * 4

-- `format!("{value:08X}")` of a `u32`
abbrev pub hex_char : ℕ → ℕ
hex_char n = if ltb n 10 then b'0' + n else b'A' + (n - 10)

abbrev pub hex_digits : ℕ → ℕ → Bytes
hex_digits zero value = []
hex_digits (suc n) value = hex_char (value / 16 ^ n % 16) ∷ hex_digits n value

unfoldable pub hex8 : ℕ → Bytes
hex8 value = hex_digits 8 value

abbrev pub fields_of : List ℕ → Bytes
fields_of [] = []
fields_of (f ∷ fs) = hex8 f ++ fields_of fs

-- `resize` to a length that is not below the present one, with zeros
abbrev pub pad_to : ℕ → Bytes → Bytes
pad_to n s = s ++ replicate (n - length s) 0

abbrev pub header_fields : ℕ → ℕ → ℕ → List ℕ
header_fields ino size name_length =
    ino
    ∷ mode_file
    ∷ 0
    ∷ 0
    ∷ 1
    ∷ 0
    ∷ size % 2 ^ 32
    ∷ 0
    ∷ 0
    ∷ 0
    ∷ 0
    ∷ (name_length + 1) % 2 ^ 32
    ∷ 0
    ∷ []

abbrev pub starts_with_slash : Str → Bool
starts_with_slash [] = false
starts_with_slash (c ∷ _) = c == b'/'

abbrev pub unpadded : Bytes → ℕ → ℕ → Bytes
unpadded name size ino =
    magic ++ (fields_of (header_fields ino size (length name)) ++ (name ++ 0 ∷ []))

abbrev pub build : Bytes → ℕ → ℕ → Member
build name size ino =
    let prefix = unpadded name size ino in
    record { prefix = pad_to (align4 (length prefix)) prefix; padding = align4 size - size }

unfoldable pub member : Str → ℕ → ℕ → Result Refusal Member
unfolding hex8 align4
member name size ino =
    if ltb max_member size
    then err too_large
    else if is_empty name || starts_with_slash name || any (λ c. c == 0) name
    then err unusable_name
    else ok (build (encode name) size ino)

abbrev prefix_of : Result Refusal Member → Bytes
prefix_of (ok m) = m.prefix
prefix_of (err _) = []

-- the name is fixed and valid, so `expect` does not fail
unfoldable pub trailer : Bytes
unfolding member
trailer =
    let end_marker = prefix_of (member (codes "TRAILER!!!") 0 0) in
    pad_to ((length end_marker + 511) / 512 * 512) end_marker
