-- ===== src/Boot/Iso/Names.antt =====
-- The names of a directory record in its three name spaces (src/boot/iso.rs).
use rescriptum.Prelude.{
  ℕ, zero, suc, ◌+◌, ◌-◌, ◌*◌, ◌/◌, ◌%◌, min, Bool, not, ◌&&◌, ◌||◌, List, [], ◌∷◌, ◌++◌, Option,
  none, some, Bytes, Str, ◌==◌, ltb, if◌then◌else◌, length, take, drop, get_or, to_ascii_lowercase,
  trim_end_matches, split_once, is_empty, between,
}
use rescriptum.Prelude.Utf8.{from_utf8_lossy}

-- the part before the first `;`, without dots at its end, in lower case
abbrev version_less : Str → Str
version_less text = elim (split_once (λ c. c == b';') text) [ none ↦ text | some (a, _) ↦ a ]

abbrev pub plain_name : Str → Str
plain_name text = to_ascii_lowercase (trim_end_matches (λ c. c == b'.') (version_less text))

unfoldable pub iso_name : Bytes → Str
unfolding from_utf8_lossy
iso_name raw = plain_name (from_utf8_lossy raw)

-- `chunks_exact(2)` read as big-endian units
abbrev pub units : Bytes → List ℕ
units [] = []
units (a ∷ []) = []
units (a ∷ b ∷ rest) = (a * 256 + b) ∷ units rest

-- `String::from_utf16_lossy`: a pair of surrogates is one scalar value, a lone one is replaced
abbrev is_high : ℕ → Bool
is_high = between 0xd800 0xdbff

abbrev is_low : ℕ → Bool
is_low = between 0xdc00 0xdfff

abbrev pub from_utf16_lossy : List ℕ → Str
from_utf16_lossy [] = []
from_utf16_lossy (u ∷ []) = (if is_high u || is_low u then 0xfffd else u) ∷ []
from_utf16_lossy (u ∷ v ∷ us) =
    let pair = from_utf16_lossy us in
    let rest = from_utf16_lossy (v ∷ us) in
    if is_high u && is_low v
    then (0x10000 + (u - 0xd800) * 1024 + (v - 0xdc00)) ∷ pair
    else (if is_high u || is_low u then 0xfffd else u) ∷ rest

unfoldable pub ucs2_name : Bytes → Option Str
ucs2_name raw =
    if ltb (length raw) 2 || not (length raw % 2 == 0)
    then none
    else some (plain_name (from_utf16_lossy (units raw)))

-- an entry of a system use area: its signature and its data
pub record Susp : Type 0 where
  pub first : ℕ
  pub second : ℕ
  pub bytes : Bytes

-- The loop of `susp_entries` over what is left of the area. Every round moves on by at least four
-- bytes, so as many rounds as there are bytes suffice.
abbrev pub susp_loop : ℕ → Bytes → List Susp
susp_loop zero area = []
susp_loop (suc fuel) area =
    let len = get_or area 2 0 in
    let rest = susp_loop fuel (drop len area) in
    if ltb (length area) 4 || ltb len 4 || ltb (length area) len
    then []
    else record {
      first = get_or area 0 0;
      second = get_or area 1 0;
      bytes = drop 4 (take len area);
    }
      ∷ rest

unfoldable pub susp_entries : Bytes → ℕ → List Susp
susp_entries area skip =
    let rest = drop (min skip (length area)) area in susp_loop (length rest) rest

-- the loop of `rock_ridge_name`, with the name so far
abbrev pub is_nm : Susp → Bool
is_nm e = e.first == b'N' && e.second == b'M' && not (is_empty e.bytes)

abbrev pub finished : Str → Option Str
finished name = if is_empty name then none else some (to_ascii_lowercase name)

unfoldable pub nm_loop : Str → List Susp → Option Str
unfolding from_utf8_lossy
nm_loop name [] = finished name
nm_loop name (e ∷ es) =
    let flags = get_or e.bytes 0 0 in
    let longer = name ++ from_utf8_lossy (drop 1 e.bytes) in
    let passed = nm_loop name es in
    let continued = nm_loop longer es in
    if not (is_nm e)
    then passed
    else if flags / 2 % 4 == 0
    then (if flags % 2 == 0 then finished longer else continued)
    else none

unfoldable pub rock_ridge_name : Bytes → ℕ → Option Str
unfolding susp_entries nm_loop
rock_ridge_name area skip = nm_loop [] (susp_entries area skip)
