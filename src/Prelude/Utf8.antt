-- ===== src/Prelude/Utf8.antt =====
-- UTF-8, as `String::as_bytes`, `String::from_utf8` and `String::from_utf8_lossy` use it.
pub mod Ascii
use Prim.Native.Nat.{ℕ, zero, suc, ◌+◌, ◌-◌, ◌*◌, ◌/◌, ◌%◌}
use mathlib.Core.List.{[], ◌∷◌, ◌++◌}
use mathlib.Core.Bool.{Bool, not}
use mathlib.Core.Option.{Option, none, some}
use rescriptum.Prelude.Tests.{ltb, ◌==◌, if◌then◌else◌}
use rescriptum.Prelude.Lists.{drop, length}
use rescriptum.Prelude.Text.{Bytes, Str, between}

-- the bytes of one scalar value
abbrev pub encode_char : ℕ → Bytes
encode_char c =
    if ltb c 0x80
    then c ∷ []
    else if ltb c 0x800
    then (0xc0 + c / 64) ∷ (0x80 + c % 64) ∷ []
    else if ltb c 0x10000
    then (0xe0 + c / 4096) ∷ (0x80 + c / 64 % 64) ∷ (0x80 + c % 64) ∷ []
    else (0xf0 + c / 262144) ∷ (0x80 + c / 4096 % 64) ∷ (0x80 + c / 64 % 64) ∷ (0x80 + c % 64) ∷ []

abbrev pub encode : Str → Bytes
encode [] = []
encode (c ∷ s) = encode_char c ++ encode s

-- The head of a byte string: a scalar value and its length, or the length of the ill-formed
-- sequence that one replacement character stands for.
pub data Head : Type 0 where
  char : ℕ → ℕ → Head
  bad : ℕ → Head

abbrev is_cont : ℕ → Bool
is_cont b = between 0x80 0xbf b

abbrev second_ok : ℕ → ℕ → Bool
second_ok b0 b1 =
    if b0 == 0xe0
    then between 0xa0 0xbf b1
    else if b0 == 0xed
    then between 0x80 0x9f b1
    else if b0 == 0xf0
    then between 0x90 0xbf b1
    else if b0 == 0xf4
    then between 0x80 0x8f b1
    else is_cont b1

abbrev fourth : ℕ → ℕ → ℕ → Bytes → Head
fourth b0 b1 b2 [] = bad 3
fourth b0 b1 b2 (b3 ∷ _) =
    if is_cont b3
    then char ((b0 - 0xf0) * 262144 + (b1 - 0x80) * 4096 + (b2 - 0x80) * 64 + (b3 - 0x80)) 4
    else bad 3

abbrev third : ℕ → ℕ → Bytes → Head
third b0 b1 [] = bad 2
third b0 b1 (b2 ∷ s) =
    if not (is_cont b2)
    then bad 2
    else if ltb b0 0xf0
    then char ((b0 - 0xe0) * 4096 + (b1 - 0x80) * 64 + (b2 - 0x80)) 3
    else fourth b0 b1 b2 s

abbrev second : ℕ → Bytes → Head
second b0 [] = bad 1
second b0 (b1 ∷ s) =
    if not (second_ok b0 b1)
    then bad 1
    else if ltb b0 0xe0
    then char ((b0 - 0xc0) * 64 + (b1 - 0x80)) 2
    else third b0 b1 s

pub head : ℕ → Bytes → Head
head b0 s = if ltb b0 0x80 then char b0 1 else if between 0xc2 0xf4 b0 then second b0 s else bad 1

-- `from_utf8`, on fuel: every round consumes at least one byte, so the length suffices.
decode : ℕ → Bytes → Option Str
decode zero s = some []
decode (suc fuel) [] = some []
decode (suc fuel) (b ∷ s) = elim (head b s) [
  | bad _ ↦ none
  | char c n ↦ elim (decode fuel (drop (n - 1) s)) [ none ↦ none | some r ↦ some (c ∷ r) ]
]

unfoldable pub from_utf8 : Bytes → Option Str
unfolding decode head
from_utf8 s = decode (length s) s

-- `from_utf8_lossy`: U+FFFD for each maximal ill-formed part
replace : ℕ → Bytes → Str
replace zero s = []
replace (suc fuel) [] = []
replace (suc fuel) (b ∷ s) = elim (head b s) [
  | bad n ↦ 0xfffd ∷ replace fuel (drop (n - 1) s)
  | char c n ↦ c ∷ replace fuel (drop (n - 1) s)
]

unfoldable pub from_utf8_lossy : Bytes → Str
unfolding replace head
from_utf8_lossy s = replace (length s) s
