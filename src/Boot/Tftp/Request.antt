-- ===== src/Boot/Tftp/Request.antt =====
-- `parse_request` of src/boot/tftp.rs. The refusals carry the code that is sent.
use rescriptum.Prelude.{
  ℕ, not, List, [], ◌∷◌, Option, none, some, Str, Bytes, ◌==◌, codes, if◌then◌else◌, str_eq,
  is_empty, split, to_ascii_lowercase,
}
use rescriptum.Prelude.Result.{Result, ok, err}
use rescriptum.Prelude.Utf8.{from_utf8}
use rescriptum.Boot.Tftp.Packet.{op_rrq, op_wrq, err_access, err_illegal, err_no_user, u16_of}

pub record Request : Type 0 where
  pub filename : Str
  pub options : List (Str × Str)

-- the message, as a value
pub data Message : Type 0 where
  truncated read_only no_filename : Message
  not_a_read : ℕ → Message
  not_octet : Str → Message

pub record Refusal : Type 0 where
  pub code : ℕ
  pub message : Message

abbrev refuse : {A : Type 0} → ℕ → Message → Result Refusal A
refuse code message = err (record { code = code; message = message })

-- the option pairs, up to the first that is incomplete, not UTF-8 or without a name
unfoldable pub read_options : List Bytes → List (Str × Str)
unfolding from_utf8
read_options [] = []
read_options (_ ∷ []) = []
read_options (name ∷ value ∷ rest) =
    let others = read_options rest in
    elim (from_utf8 name) [
      | none ↦ []
      | some n ↦ elim (from_utf8 value) [
        | none ↦ []
        | some v ↦ if is_empty n then [] else (to_ascii_lowercase n, v) ∷ others
      ]
    ]

-- `unwrap_or_default` of the mode's field
abbrev mode_of : List Bytes → Str
mode_of [] = []
mode_of (field ∷ _) = elim (from_utf8 field) [ none ↦ [] | some s ↦ to_ascii_lowercase s ]

abbrev behind_mode : List Bytes → List Bytes
behind_mode [] = []
behind_mode (_ ∷ rest) = rest

abbrev read_mode : Str → List Bytes → Result Refusal Request
read_mode filename fields =
    let mode = mode_of fields in
    if str_eq mode (codes "octet")
    then ok (record { filename = filename; options = read_options (behind_mode fields) })
    else refuse err_no_user (not_octet mode)

abbrev read_name : Option Str → List Bytes → Result Refusal Request
read_name none fields = refuse err_illegal no_filename
read_name (some filename) fields =
    if is_empty filename then refuse err_illegal no_filename else read_mode filename fields

abbrev read_fields : List Bytes → Result Refusal Request
read_fields [] = refuse err_illegal no_filename
read_fields (name ∷ fields) = read_name (from_utf8 name) fields

unfoldable pub parse_request : Bytes → Result Refusal Request
unfolding from_utf8 read_options
parse_request (a ∷ b ∷ c ∷ d ∷ rest) =
    let opcode = u16_of a b in
    if opcode == op_wrq
    then refuse err_access read_only
    else if not (opcode == op_rrq)
    then refuse err_illegal (not_a_read opcode)
    else read_fields (split (λ x. x == 0) (c ∷ d ∷ rest))
parse_request _ = refuse err_illegal truncated
