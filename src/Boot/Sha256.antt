-- ===== src/Boot/Sha256.antt =====
-- src/boot/sha256.rs: the hasher and what is told of its digest. A `u32` is a number below 2 ^ 32.
pub mod Compress
pub mod Absorb
pub mod Standard
pub mod Conforms
pub mod Digest
use rescriptum.Prelude.{
  ℕ, zero, suc, ◌+◌, ◌-◌, ◌*◌, ◌/◌, ◌%◌, ◌^◌, Bool, true, false, ◌&&◌, List, [], ◌∷◌, ◌++◌, Option,
  none, some, Str, Bytes, ◌==◌, ltb, if◌then◌else◌, length, take, drop, replicate, all, min, ◌≡◌,
  refl, codes, is_ascii_digit, between, lower,
}
use rescriptum.Prelude.Utf8.{encode}
use rescriptum.Boot.Patch.{copy_into}
use rescriptum.Boot.Sha256.Compress.{initial, compress}

pub record Sha256 : Type 0 where
  pub state : List ℕ
  pub block : Bytes
  pub buffered : ℕ
  pub bits : ℕ

abbrev pub new : Sha256
new = record { state = initial; block = replicate 64 0; buffered = 0; bits = 0 }

-- `let block = self.block; self.compress(&block); self.buffered = 0;`
abbrev pub flush : Sha256 → Sha256
flush h = record h { state = compress h.state h.block; buffered = 0 }

-- the loop over `chunks_exact(64)`, of which there are `n`, and the remainder
unfoldable pub absorb : ℕ → Sha256 → Bytes → Sha256
absorb zero h rest = record h { block = copy_into h.block 0 rest; buffered = length rest }
absorb (suc n) h text =
    absorb n (record h { state = compress h.state (take 64 text) }) (drop 64 text)

abbrev pub held : Sha256 → Bytes → Sha256
held h text = record h {
  block = copy_into h.block h.buffered text;
  buffered = h.buffered + length text;
}

-- what is held already is filled up first
unfoldable pub fill : Sha256 → Bytes → Sha256
unfolding absorb
fill h text =
    let room = min (64 - h.buffered) (length text) in
    let full = held h (take room text) in
    let rest = drop room text in
    if ltb full.buffered 64 then full else absorb (length rest / 64) (flush full) rest

unfoldable pub update : Sha256 → Bytes → Sha256
unfolding fill absorb
update h text =
    let counted = record h { bits = (h.bits + length text * 8) % 2 ^ 64 } in
    if ltb 0 h.buffered then fill counted text else absorb (length text / 64) counted text

unfoldable pub pad : Sha256 → ℕ → Sha256
pad h byte =
    let longer = record h {
      block = copy_into h.block h.buffered (byte ∷ []);
      buffered = h.buffered + 1;
    } in
    if longer.buffered == 64 then flush longer else longer

-- `while self.buffered != 56`; `none` means that the fuel ran out
unfoldable pub pad_zeros : ℕ → Sha256 → Option Sha256
unfolding pad
pad_zeros zero h = none
pad_zeros (suc fuel) h =
    let next = pad h 0 in elim (h.buffered == 56) [ true ↦ some h | false ↦ pad_zeros fuel next ]

unfoldable pub pad_all : Sha256 → Bytes → Sha256
unfolding pad
pad_all h [] = h
pad_all h (b ∷ bytes) = pad_all (pad h b) bytes

-- `to_be_bytes` of a `u64` and of a `u32`
abbrev pub be : ℕ → ℕ → Bytes
be zero n = []
be (suc k) n = (n / 256 ^ k % 256) ∷ be k n

abbrev pub words_out : List ℕ → Bytes
words_out [] = []
words_out (w ∷ ws) = be 4 w ++ words_out ws

abbrev lengthen : ℕ → Option Sha256 → Option Bytes
lengthen bits none = none
lengthen bits (some h) = some (words_out (pad_all h (be 8 bits)).state)

unfoldable pub finish : Sha256 → Option Bytes
unfolding pad pad_zeros pad_all
finish h = lengthen h.bits (pad_zeros 64 (pad h 0x80))

-- `char::from_digit(n, 16)`, lowercase
abbrev pub hex_digit : ℕ → ℕ
hex_digit n = if ltb n 10 then b'0' + n else b'a' + (n - 10)

unfoldable pub to_hex : Bytes → Str
to_hex [] = []
to_hex (b ∷ bytes) = hex_digit (b / 16) ∷ hex_digit (b % 16) ∷ to_hex bytes

abbrev hex_of : Option Bytes → Option Str
hex_of none = none
hex_of (some digest) = some (to_hex digest)

unfoldable pub hex : Bytes → Option Str
unfolding finish update to_hex
hex text = hex_of (finish (update new text))

abbrev is_ascii_hexdigit : ℕ → Bool
is_ascii_hexdigit b = if is_ascii_digit b then true else between b'a' b'f' (lower b)

unfoldable pub is_digest : Str → Bool
is_digest value = length (encode value) == 64 && all is_ascii_hexdigit (encode value)

-- What one `read` of a file gives, in the loop of `file`: bytes, of which there are none at its end,
-- an interruption, after which it reads again, or another error.
pub data Read : Type 0 where
  chunk : Bytes → Read
  interrupted failed : Read

pub data Outcome : Type 0 where
  digest : Str → Outcome
  unreadable : Outcome
  -- the reads that are given do not come to the end of the file
  unfinished : Outcome

abbrev told : Option Bytes → Outcome
told none = unfinished
told (some d) = digest (to_hex d)

unfoldable pub file_loop : List Read → Sha256 → Outcome
unfolding update finish to_hex
file_loop [] h = unfinished
file_loop (chunk [] ∷ reads) h = told (finish h)
file_loop (chunk (b ∷ bytes) ∷ reads) h = file_loop reads (update h (b ∷ bytes))
file_loop (interrupted ∷ reads) h = file_loop reads h
file_loop (failed ∷ reads) h = unreadable

unfoldable pub file : List Read → Outcome
unfolding file_loop
file reads = file_loop reads new
