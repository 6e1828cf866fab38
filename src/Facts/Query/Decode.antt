-- ===== src/Facts/Query/Decode.antt =====
-- What `percent_decode` promises: no panic on ASCII, plain text unchanged, escapes undone.
use rescriptum.Prelude.{
  ℕ, ◌+◌, ◌-◌, ◌*◌, ◌/◌, ◌%◌, ◌<◌, ◌≤◌, true, false, [], ◌∷◌, ◌++◌, Option, none, some, Str, Bytes,
  ◌==◌, ltb, if◌then◌else◌, All, ◌≡◌, refl, ap, ◌∙◌, arith, append_assoc, append-nil, is_some,
  Bool-cases, Option-cases, ==_iff, inl, inr,
}
use rescriptum.Prelude.Utf8.{encode, from_utf8_lossy}
use rescriptum.Facts.Query.{from_str_radix, boundary, decode_loop, lossy_text, percent_decode}

abbrev pub IsAscii : Bytes → Type 0
IsAscii = All (λ c. c < 0x80)

pub encode_ascii : (s : Str) → IsAscii s → encode s ≡ s
encode_ascii [] h = refl
encode_ascii (c ∷ s) (hc, hs) = ground (arith, encode_ascii s hs)

boundary_ascii : (s : Bytes) → IsAscii s → boundary s ≡ true
boundary_ascii [] h = refl
boundary_ascii (b ∷ s) (hb, hs) = ground arith

-- one round at a `%` that two more bytes follow
decode_loop_hex :
    (c d byte : ℕ) (s out : Bytes)
    → boundary (c ∷ []) ≡ true
    → boundary s ≡ true
    → from_str_radix c d ≡ some byte
    → decode_loop (b'%' ∷ c ∷ d ∷ s) out ≡ decode_loop s (out ++ byte ∷ [])
unfolding decode_loop
decode_loop_hex c d byte s out hc hs h = rw (hc, hs, h)

decode_loop_bad :
    (c d : ℕ) (s out : Bytes)
    → boundary (c ∷ []) ≡ true
    → boundary s ≡ true
    → from_str_radix c d ≡ none
    → decode_loop (b'%' ∷ c ∷ d ∷ s) out ≡ decode_loop (c ∷ d ∷ s) (out ++ b'%' ∷ [])
unfolding decode_loop
decode_loop_bad c d s out hc hs h = rw (hc, hs, h)

decode_loop_cut :
    (c d : ℕ) (s out : Bytes) → boundary s ≡ false → decode_loop (b'%' ∷ c ∷ d ∷ s) out ≡ none
unfolding decode_loop
decode_loop_cut c d s out h = ground arith

decode_loop_plain :
    (b c d : ℕ) (s out : Bytes)
    → (b == b'%') ≡ false
    → decode_loop (b ∷ c ∷ d ∷ s) out
      ≡ decode_loop (c ∷ d ∷ s) (out ++ (if b == b'+' then b' ' else b) ∷ [])
unfolding decode_loop
decode_loop_plain b c d s out h = rw h

decode_loop_total : (s out : Bytes) → IsAscii s → is_some (decode_loop s out) ≡ true
decode_loop_total [] out h = unfold decode_loop in refl
decode_loop_total (b ∷ []) out h = unfold decode_loop in refl
decode_loop_total (b ∷ c ∷ []) out (hb, h) = unfold decode_loop in refl
decode_loop_total (b ∷ c ∷ d ∷ s) out (hb, (hc, (hd, hs))) = elim (Bool-cases (b == b'%')) [
  | inr h ↦ rw (decode_loop_plain b c d s out h) (decode_loop_total (c ∷ d ∷ s) _ (hc, (hd, hs)))
  | inl h ↦ rw ((==_iff b b'%').0 h) (elim (Option-cases (from_str_radix c d)) [
    | inl n ↦
        rw (decode_loop_bad c d s out (boundary_ascii (c ∷ []) (hc, tt)) (boundary_ascii s hs) n)
          (decode_loop_total (c ∷ d ∷ s) _ (hc, (hd, hs)))
    | inr (byte, e) ↦
        rw
          (decode_loop_hex c d byte s out (boundary_ascii (c ∷ []) (hc, tt)) (boundary_ascii s hs)
            e)
          (decode_loop_total s _ hs)
  ])
]

abbrev decode_from_start : Bytes → Option Bytes
decode_from_start s = decode_loop s []

decoded :
    (s : Str) {o : Option Bytes} → decode_loop (encode s) [] ≡ o → percent_decode s ≡ lossy_text o
unfolding percent_decode
decoded s h = ap lossy_text h

-- A text of ASCII characters is decoded, whatever its escapes look like.
pub percent_decode_total : (s : Str) → IsAscii s → is_some (percent_decode s) ≡ true
unfolding percent_decode
percent_decode_total s h = ground (arith, encode_ascii s h, decode_loop_total s [] h)

-- the spelling that a client gives to bytes: two hexadecimal digits behind `%`
abbrev hex_char : ℕ → ℕ
hex_char n = if ltb n 10 then b'0' + n else b'A' + (n - 10)

abbrev pub escape : Bytes → Bytes
escape [] = []
escape (b ∷ bs) = b'%' ∷ hex_char (b / 16) ∷ hex_char (b % 16) ∷ escape bs

escape_byte :
    (x y : ℕ) → x < 16 → y < 16 → from_str_radix (hex_char x) (hex_char y) ≡ some (x * 16 + y)
unfolding from_str_radix
escape_byte x y hx hy = ground arith

hex_char-ascii : (x : ℕ) → x < 16 → hex_char x < 0x80
hex_char-ascii x h = ground arith

boundary-escape : (bs : Bytes) → boundary (escape bs) ≡ true
boundary-escape [] = refl
boundary-escape (b ∷ bs) = refl

decode_loop-escape :
    (bs out : Bytes) → All (λ b. b < 256) bs → decode_loop (escape bs) out ≡ some (out ++ bs)
decode_loop-escape [] out h = unfold decode_loop in rw append-nil
decode_loop-escape (b ∷ bs) out (hb, hs) =
    decode_loop_hex (hex_char (b / 16)) (hex_char (b % 16)) b (escape bs) out
      (boundary_ascii (hex_char (b / 16) ∷ []) (hex_char-ascii (b / 16) (omega arith), tt))
      (boundary-escape bs)
      (escape_byte (b / 16) (b % 16) (omega arith) (omega arith) ∙ ap some (omega arith))
    ∙ decode_loop-escape bs (out ++ b ∷ []) hs
    ∙ rw append_assoc

escape-IsAscii : (bs : Bytes) → All (λ b. b < 256) bs → IsAscii (escape bs)
escape-IsAscii [] h = tt
escape-IsAscii (b ∷ bs) (hb, hs) = (
  omega arith,
  (
    hex_char-ascii (b / 16) (omega arith),
    (hex_char-ascii (b % 16) (omega arith), escape-IsAscii bs hs),
  ),
)

-- Bytes that a client spells as `%XX` escapes come back as the text that they encode.
pub percent_decode-escape :
    (bs : Bytes) → All (λ b. b < 256) bs → percent_decode (escape bs) ≡ some (from_utf8_lossy bs)
percent_decode-escape bs h = decoded (escape bs) (
    ap decode_from_start (encode_ascii (escape bs) (escape-IsAscii bs h))
    ∙ decode_loop-escape bs [] h)

encode_head :
    (a c : ℕ) (s : Str)
    → a < 0x80
    → 0x80 ≤ c
    → c < 0x800
    → encode (b'%' ∷ a ∷ c ∷ s) ≡ b'%' ∷ a ∷ (0xc0 + c / 64) ∷ (0x80 + c % 64) ∷ encode s
encode_head a c s ha lo hi = ground arith

-- A `%`, an ASCII character and a character of two bytes: the slice cuts the latter, and panics.
pub percent_decode_panics :
    (a c : ℕ) (s : Str) → a < 0x80 → 0x80 ≤ c → c < 0x800 → percent_decode (b'%' ∷ a ∷ c ∷ s) ≡ none
percent_decode_panics a c s ha lo hi = decoded (b'%' ∷ a ∷ c ∷ s) (
    ap decode_from_start (encode_head a c s ha lo hi)
    ∙ decode_loop_cut a (0xc0 + c / 64) ((0x80 + c % 64) ∷ encode s) [] (ground arith))
