-- ===== src/Prelude/Text.antt =====
-- Text as the program handles it. A `Str` is a list of Unicode scalar values (Rust's `char`s), a
-- `Bytes` a list of octets; the functions are those of `str` and `u8` that the sources call.
use Prim.Native.Char.{code}
use Prim.Native.String.{String}
use Prim.Native.Nat.{ℕ, zero, suc, ◌+◌, ◌-◌, ◌*◌, ◌/◌, ◌%◌, ◌^◌}
use mathlib.Core.Path.{◌≡◌, refl}
use mathlib.Core.Logic.{◌↔◌}
use mathlib.Core.List.{List, [], ◌∷◌, ◌++◌, map}
use mathlib.Core.Bool.{Bool, true, false, ◌&&◌, ◌||◌}
use mathlib.Core.Option.{Option, none, some}
use native.Mathlib.Omega.{arith}
use rescriptum.Prelude.Tests.{ltb, leb, ◌==◌, if◌then◌else◌}

abbrev pub Bytes : Type 0
Bytes = List ℕ

abbrev pub Str : Type 0
Str = List ℕ

-- The scalar values of a literal; every literal below is ASCII, so these are its bytes too.
abbrev pub codes : String → Str
codes String.[] = []
codes (String.◌∷◌ c s) = code c ∷ codes s

-- `==` on `str` and on slices of `u8`
abbrev pub str_eq : Str → Str → Bool
str_eq [] [] = true
str_eq (x ∷ xs) (y ∷ ys) = x == y && str_eq xs ys
str_eq [] (y ∷ ys) = false
str_eq (x ∷ xs) [] = false

pub str_eq_iff : (a b : Str) → (str_eq a b ≡ true) ↔ (a ≡ b)
str_eq_iff [] [] = ground arith
str_eq_iff [] (y ∷ b) = ground arith
str_eq_iff (x ∷ a) [] = ground arith
str_eq_iff (x ∷ a) (y ∷ b) = ground (arith, str_eq_iff a b)

pub str_eq_self : (a : Str) → str_eq a a ≡ true
str_eq_self a = (str_eq_iff a a).1 refl

-- `Ord` for `String`: lexicographic; on scalar values this is the order of the UTF-8 bytes.
abbrev pub str_ltb : Str → Str → Bool
str_ltb [] [] = false
str_ltb [] (y ∷ ys) = true
str_ltb (x ∷ xs) [] = false
str_ltb (x ∷ xs) (y ∷ ys) = ltb x y || (x == y && str_ltb xs ys)

abbrev pub between : ℕ → ℕ → ℕ → Bool
between lo hi c = leb lo c && leb c hi

abbrev pub is_ascii_digit : ℕ → Bool
is_ascii_digit c = between b'0' b'9' c

abbrev pub is_ascii_alphabetic : ℕ → Bool
is_ascii_alphabetic c = between b'a' b'z' c || between b'A' b'Z' c

abbrev pub is_ascii_alphanumeric : ℕ → Bool
is_ascii_alphanumeric c = is_ascii_digit c || is_ascii_alphabetic c

abbrev pub lower : ℕ → ℕ
lower c = if between b'A' b'Z' c then c + 32 else c

abbrev pub to_ascii_lowercase : Str → Str
to_ascii_lowercase = map lower

-- `char::is_whitespace`: the Unicode property White_Space
abbrev pub is_whitespace : ℕ → Bool
is_whitespace c =
    between 9 13 c
    || c == 32
    || c == 0x85
    || c == 0xa0
    || c == 0x1680
    || between 0x2000 0x200a c
    || c == 0x2028
    || c == 0x2029
    || c == 0x202f
    || c == 0x205f
    || c == 0x3000

-- `char::is_control`: the general category Cc
abbrev pub is_control : ℕ → Bool
is_control c = leb c 31 || between 0x7f 0x9f c

abbrev pub is_empty : Str → Bool
is_empty [] = true
is_empty (_ ∷ _) = false

-- `trim_start_matches` and `trim_end_matches` with a test on one character
abbrev pub trim_start_matches : (ℕ → Bool) → Str → Str
trim_start_matches p [] = []
trim_start_matches p (c ∷ s) = if p c then trim_start_matches p s else c ∷ s

abbrev pub trim_end_matches : (ℕ → Bool) → Str → Str
trim_end_matches p [] = []
trim_end_matches p (c ∷ s) =
    let rest = trim_end_matches p s in if p c && is_empty rest then [] else c ∷ rest

abbrev pub trim_matches : (ℕ → Bool) → Str → Str
trim_matches p s = trim_end_matches p (trim_start_matches p s)

abbrev pub trim_start : Str → Str
trim_start = trim_start_matches is_whitespace

abbrev pub trim : Str → Str
trim = trim_matches is_whitespace

abbrev pub strip_prefix : Str → Str → Option Str
strip_prefix [] s = some s
strip_prefix (p ∷ ps) [] = none
strip_prefix (p ∷ ps) (c ∷ s) = if p == c then strip_prefix ps s else none

-- `split_once` at the first character that passes the test
abbrev pub split_once : (ℕ → Bool) → Str → Option (Str × Str)
split_once p [] = none
split_once p (c ∷ s) =
    if p c
    then some ([], s)
    else elim (split_once p s) [ none ↦ none | some (a, b) ↦ some (c ∷ a, b) ]

-- the first piece of a `split`, and those behind it
abbrev pub cons_piece : ℕ → List Str → List Str
cons_piece c [] = (c ∷ []) ∷ []
cons_piece c (p ∷ ps) = (c ∷ p) ∷ ps

abbrev pub split : (ℕ → Bool) → Str → List Str
split p [] = [] ∷ []
split p (c ∷ s) = if p c then [] ∷ split p s else cons_piece c (split p s)

-- `lines`: the last piece counts only if it is not empty, and a line that a newline ends loses one
-- carriage return at its end
abbrev pub strip_cr : Str → Str
strip_cr [] = []
strip_cr (c ∷ []) = if c == 13 then [] else c ∷ []
strip_cr (c ∷ d ∷ s) = c ∷ strip_cr (d ∷ s)

abbrev line_pieces : List Str → List Str
line_pieces [] = []
line_pieces (p ∷ []) = if is_empty p then [] else p ∷ []
line_pieces (p ∷ q ∷ ps) = strip_cr p ∷ line_pieces (q ∷ ps)

abbrev pub lines : Str → List Str
lines s = line_pieces (split (λ c. c == 10) s)

-- `find` of a text, as the parts before and behind its first occurrence
abbrev pub split_at : Str → Str → Option (Str × Str)
split_at pat [] = elim (strip_prefix pat []) [ none ↦ none | some r ↦ some ([], r) ]
split_at pat (c ∷ s) = elim (strip_prefix pat (c ∷ s)) [
  | some r ↦ some ([], r)
  | none ↦ elim (split_at pat s) [ none ↦ none | some (a, r) ↦ some (c ∷ a, r) ]
]

abbrev pub contains : Str → Str → Bool
contains [] pat = elim (strip_prefix pat []) [ none ↦ false | some _ ↦ true ]
contains (c ∷ s) pat = elim (strip_prefix pat (c ∷ s)) [ some _ ↦ true | none ↦ contains s pat ]

abbrev pub ends_with : ℕ → Str → Bool
ends_with b [] = false
ends_with b (c ∷ []) = c == b
ends_with b (c ∷ d ∷ s) = ends_with b (d ∷ s)

-- `[…].join(sep)`
abbrev pub join : Str → List Str → Str
join sep [] = []
join sep (p ∷ []) = p
join sep (p ∷ q ∷ ps) = p ++ sep ++ join sep (q ∷ ps)

-- Decimal print of a number, on fuel: each round writes one digit in front of `out`.
abbrev pub digits_onto : ℕ → ℕ → Str → Str
digits_onto zero n out = out
digits_onto (suc fuel) n out =
    let rest = digits_onto fuel (n / 10) ((b'0' + n % 10) ∷ out) in
    if ltb n 10 then (b'0' + n) ∷ out else rest

unfoldable pub decimal : ℕ → Str
decimal n = digits_onto (suc n) n []

-- `str::parse` for an unsigned integer of at most `top`: one `+` may stand in front, then one or
-- more digits, and no overflow.
abbrev pub parse_digits : ℕ → ℕ → Str → Option ℕ
parse_digits top acc [] = some acc
parse_digits top acc (c ∷ s) =
    if is_ascii_digit c && leb (acc * 10 + (c - b'0')) top
    then parse_digits top (acc * 10 + (c - b'0')) s
    else none

abbrev pub parse_unsigned : ℕ → Str → Option ℕ
parse_unsigned top [] = none
parse_unsigned top (c ∷ []) = parse_digits top 0 (c ∷ [])
parse_unsigned top (c ∷ d ∷ s) =
    if c == b'+' then parse_digits top 0 (d ∷ s) else parse_digits top 0 (c ∷ d ∷ s)

abbrev pub max_u16 : ℕ
max_u16 = 2 ^ 16 - 1

abbrev pub max_u32 : ℕ
max_u32 = 2 ^ 32 - 1

abbrev pub max_u64 : ℕ
max_u64 = 2 ^ 64 - 1
