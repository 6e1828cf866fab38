-- ===== src/Boot/Media/Segments.antt =====
-- The segments of a response and `slice` (src/boot/media.rs).
pub mod Slice
use rescriptum.Prelude.{ℕ, ◌+◌, ◌-◌, List, map, Bytes, Str, length}
use rescriptum.Boot.Patch.{Plan, plan_length}

pub data Segment : Type 0 where
  bytes : Bytes → Segment
  file : Str → ℕ → ℕ → Segment
  patched : Plan → Segment
  window : Plan → ℕ → ℕ → Segment

unfoldable pub segment_length : Segment → ℕ
unfolding plan_length
segment_length (bytes b) = length b
segment_length (file _ _ n) = n
segment_length (patched plan) = plan_length plan
segment_length (window _ _ n) = n

abbrev pub narrow : ℕ → ℕ → Segment → Segment
narrow first last (file path offset _) = file path (offset + first) (last - first + 1)
narrow first last (patched plan) = window plan first (last - first + 1)
narrow first last (bytes b) = bytes b
narrow first last (window plan s n) = window plan s n

unfoldable pub slice : List Segment → ℕ → ℕ → List Segment
slice segments first last = map (narrow first last) segments
