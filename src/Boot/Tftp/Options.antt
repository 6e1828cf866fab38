-- ===== src/Boot/Tftp/Options.antt =====
-- The option negotiation in `transfer` of src/boot/tftp.rs.
pub mod Bounds
use rescriptum.Prelude.{
  ℕ, Bool, true, false, ◌&&◌, List, [], ◌∷◌, ◌++◌, Option, none, some, Str, codes, if◌then◌else◌,
  str_eq, ltb, leb, ◌==◌, trim, split_once, get_or_else, max_u16, min, max, decimal, parse_unsigned,
  max_u32, max_u64,
}
use mathlib.Core.List.{foldl}

abbrev pub default_block : ℕ
default_block = 512

abbrev pub max_block : ℕ
max_block = 1468

-- `clamp`; it panics where the cap is below the floor, which `tftp_blksize` rules out
abbrev pub clamp : ℕ → ℕ → ℕ → ℕ
clamp lo hi x = max lo (min x hi)

-- `Config::tftp_blksize` of src/config.rs, on the configured value
unfoldable pub tftp_blksize : Option ℕ → ℕ
tftp_blksize setting = clamp default_block max_block (get_or_else setting max_block)

-- `Config::tftp_port_range` of src/config.rs
abbrev port_range_of : Option ℕ → Option ℕ → Option (ℕ × ℕ)
port_range_of (some first) (some last) =
    if ltb 0 first && leb first last then some (first, last) else none
port_range_of none _ = none
port_range_of (some _) none = none

unfoldable pub tftp_port_range : Option Str → Option (ℕ × ℕ)
tftp_port_range none = none
tftp_port_range (some setting) = elim (split_once (λ c. c == b'-') (trim setting)) [
  | none ↦ none
  | some (a, b) ↦ port_range_of (parse_unsigned max_u16 (trim a)) (parse_unsigned max_u16 (trim b))
]

pub record Agreed : Type 0 where
  pub block_size : ℕ
  pub asked_block : ℕ
  pub accepted : List (Str × Str)

abbrev accept : Agreed → Str → Str → Agreed
accept a name value = record a { accepted = a.accepted ++ (name, value) ∷ [] }

abbrev agree_blksize : ℕ → Agreed → Option ℕ → Agreed
agree_blksize cap a none = a
agree_blksize cap a (some asked) =
    let size = clamp default_block cap asked in
    accept (record a { block_size = size; asked_block = asked }) (codes "blksize") (decimal size)

abbrev agree_timeout : Agreed → Option ℕ → Agreed
agree_timeout a none = a
agree_timeout a (some seconds) =
    if leb 1 seconds && leb seconds 255 then accept a (codes "timeout") (decimal seconds) else a

-- one option; `windowsize` and every unknown one is left out
unfoldable pub agree : ℕ → ℕ → Agreed → Str × Str → Agreed
agree cap size a (name, value) =
    if str_eq name (codes "blksize")
    then agree_blksize cap a (parse_unsigned max_u64 value)
    else if str_eq name (codes "tsize")
    then accept a (codes "tsize") (decimal size)
    else if str_eq name (codes "timeout")
    then agree_timeout a (parse_unsigned max_u32 value)
    else a

unfoldable pub negotiate : ℕ → ℕ → List (Str × Str) → Agreed
unfolding agree
negotiate cap size options =
    foldl (agree cap size)
      (record { block_size = default_block; asked_block = default_block; accepted = [] }) options
