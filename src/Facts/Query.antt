-- ===== src/Facts/Query.antt =====
-- Selector patterns and query strings of src/facts.rs. A panic of `percent_decode` is `none`.
pub mod Decode
use rescriptum.Prelude.{
  ℕ, zero, suc, ◌+◌, ◌-◌, ◌*◌, Bool, true, false, not, ◌&&◌, ◌||◌, List, [], ◌∷◌, ◌++◌, map, Option,
  none, some, Str, Bytes, ◌==◌, ltb, leb, if◌then◌else◌, filter, is_ascii_alphanumeric, lower,
  between, split, split_once, is_empty, length, ◌>>=◌,
}
use rescriptum.Prelude.Utf8.{encode, from_utf8_lossy}

unfoldable pub normalize_pattern : Str → Str
normalize_pattern pattern =
    map lower (filter (λ b. is_ascii_alphanumeric b || b == b'*' || b == b'?') pattern)

-- the value of a hexadecimal digit
abbrev hex_digit : ℕ → Option ℕ
hex_digit c =
    if between b'0' b'9' c
    then some (c - b'0')
    else if between b'a' b'f' c
    then some (c - b'a' + 10)
    else if between b'A' b'F' c
    then some (c - b'A' + 10)
    else none

-- `u8::from_str_radix(…, 16)` on two characters: a `+` may stand in front of the digits
unfoldable pub from_str_radix : ℕ → ℕ → Option ℕ
from_str_radix a b = if a == b'+' then hex_digit b else elim (hex_digit a) [
  | none ↦ none
  | some x ↦ elim (hex_digit b) [ none ↦ none | some y ↦ some (x * 16 + y) ]
]

-- `is_char_boundary` in front of the byte that follows, if one does
abbrev pub boundary : Bytes → Bool
boundary [] = true
boundary (b ∷ _) = not (between 0x80 0xbf b)

-- The loop over the bytes of the text, on what is left of them. Slicing `input[i + 1..i + 3]`
-- panics where a character is cut in two.
unfoldable pub decode_loop : Bytes → Bytes → Option Bytes
decode_loop [] out = some out
decode_loop (b ∷ []) out = some (out ++ (if b == b'+' then b' ' else b) ∷ [])
decode_loop (b ∷ c ∷ []) out = decode_loop (c ∷ []) (out ++ (if b == b'+' then b' ' else b) ∷ [])
decode_loop (b ∷ c ∷ d ∷ s) out =
    let plain = decode_loop (c ∷ d ∷ s) (out ++ (if b == b'+' then b' ' else b) ∷ []) in
    let escape : Option Bytes = elim (from_str_radix c d) [
      | some byte ↦ decode_loop s (out ++ byte ∷ [])
      | none ↦ decode_loop (c ∷ d ∷ s) (out ++ b'%' ∷ [])
    ] in
    let sliced = if boundary (c ∷ []) && boundary s then escape else none in
    if b == b'%' then sliced else plain

abbrev pub lossy_text : Option Bytes → Option Str
lossy_text none = none
lossy_text (some out) = some (from_utf8_lossy out)

unfoldable pub percent_decode : Str → Option Str
unfolding decode_loop from_str_radix from_utf8_lossy
percent_decode input = lossy_text (decode_loop (encode input) [])

-- one pair of `a=1&b=2`
abbrev decode_pair : Option (Str × Str) → Str → Option (Str × Str)
decode_pair (some (k, v)) pair = do
  key ← percent_decode k
  value ← percent_decode v
  some (key, value)
decode_pair none pair = do key ← percent_decode pair; some (key, [])

decode_pairs : List Str → Option (List (Str × Str))
decode_pairs [] = some []
decode_pairs (pair ∷ rest) = do
  entry ← decode_pair (split_once (λ c. c == b'=') pair) pair
  entries ← decode_pairs rest
  some (entry ∷ entries)

unfoldable pub parse_query : Str → Option (List (Str × Str))
unfolding decode_pairs percent_decode
parse_query query =
    decode_pairs (filter (λ pair. not (is_empty pair)) (split (λ c. c == b'&') query))
