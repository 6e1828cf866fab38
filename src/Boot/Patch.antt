-- ===== src/Boot/Patch.antt =====
-- `Plan` of src/boot/patch.rs: an image with a few bytes substituted and a few appended.
pub mod Overlay
pub mod Window
pub mod Build
pub mod Addition
pub mod ReadBack
pub mod LongName
pub mod Walk
pub mod ShortName
use rescriptum.Prelude.{
  ℕ, zero, suc, ◌+◌, ◌-◌, true, false, ◌||◌, List, [], ◌++◌, Bytes, Str, ◌==◌, ltb, leb,
  if◌then◌else◌, min, max, length, take, drop, replicate,
}
use mathlib.Core.List.{foldl}

pub record Overwrite : Type 0 where
  pub at : ℕ
  pub bytes : Bytes

pub record Plan : Type 0 where
  pub source : Str
  pub source_len : ℕ
  pub overwrites : List Overwrite
  pub tail : Bytes
  pub added : Str

unfoldable pub plan_length : Plan → ℕ
plan_length p = p.source_len + length p.tail

-- `buffer[at..at + bytes.len()].copy_from_slice(bytes)`
abbrev pub copy_into : Bytes → ℕ → Bytes → Bytes
copy_into buffer at bytes = take at buffer ++ (bytes ++ drop (at + length bytes) buffer)

-- one overwrite on a window of `length buffer` bytes that starts at `offset`
unfoldable pub substitute : ℕ → Bytes → Overwrite → Bytes
substitute offset buffer o =
    let want = length buffer in
    let end_at = o.at + length o.bytes in
    let from = max o.at offset in
    let to = min end_at (offset + want) in
    if leb end_at offset || leb (offset + want) o.at
    then buffer
    else copy_into buffer (from - offset) (take (to - from) (drop (from - o.at) o.bytes))

-- the window's bytes before the substitution: of the source, then of the tail, then zeros
unfoldable pub plain_window : Plan → Bytes → ℕ → ℕ → Bytes
plain_window p source offset want =
    let from_source = if ltb offset p.source_len then min (p.source_len - offset) want else 0 in
    let tail_start = offset - p.source_len in
    let some_tail = take (want - from_source) (drop tail_start p.tail) in
    take from_source (drop offset source)
    ++ (some_tail ++ replicate (want - from_source - length some_tail) 0)

-- `read_at` with a buffer of `size` bytes, on the source file's contents
unfoldable pub read_at : Plan → Bytes → ℕ → ℕ → Bytes
unfolding plan_length plain_window substitute
read_at p source offset size =
    let total = plan_length p in
    let want = min size (total - offset) in
    if leb total offset
    then []
    else foldl (substitute offset) (plain_window p source offset want) p.overwrites

-- The loop of `materialise`, with a buffer of `size` bytes; `none` means that the fuel ran out.
unfoldable pub write_loop : ℕ → Plan → Bytes → ℕ → ℕ → Bytes → Bytes
unfolding read_at
write_loop zero p source size at out = out
write_loop (suc fuel) p source size at out =
    let piece = read_at p source at size in
    elim (ltb at (plan_length p)) [
      | false ↦ out
      | true ↦ elim (length piece == 0) [
        | true ↦ out
        | false ↦ write_loop fuel p source size (at + length piece) (out ++ piece)
      ]
    ]

unfoldable pub materialise : Plan → Bytes → Bytes
unfolding write_loop
materialise p source = write_loop (plan_length p + 1) p source 1048576 0 []
