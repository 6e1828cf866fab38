-- ===== src/Boot/Media/Range.antt =====
-- `parse_range` of src/boot/media.rs.
pub mod Forms
use rescriptum.Prelude.{
  ℕ, zero, suc, ◌+◌, ◌-◌, Bool, true, false, ◌&&◌, Option, none, some, Str, ◌==◌, codes,
  if◌then◌else◌, ltb, leb, min, is_empty, any, trim, strip_prefix, split_once, parse_unsigned,
  max_u64,
}

-- a part is inclusive at both ends
pub data Wanted : Type 0 where
  whole unsatisfiable : Wanted
  part : ℕ → ℕ → Wanted

-- `-n`: the final n bytes
unfoldable pub suffix : ℕ → Option ℕ → Wanted
suffix total none = whole
suffix total (some n) = if n == 0 then unsatisfiable else part (total - n) (total - 1)

-- `a-`: from a to the end
unfoldable pub open_range : ℕ → Option ℕ → Wanted
open_range total none = whole
open_range total (some first) = if ltb first total then part first (total - 1) else unsatisfiable

-- `a-b`, with b clamped
unfoldable pub closed : ℕ → Option ℕ → Option ℕ → Wanted
closed total (some first) (some last) =
    if leb first last && ltb first total then part first (min last (total - 1)) else unsatisfiable
closed total none _ = whole
closed total (some _) none = whole

abbrev pub ends_of : ℕ → Str → Str → Wanted
ends_of total first last =
    if is_empty first
    then (if is_empty last then whole else suffix total (parse_unsigned max_u64 last))
    else if is_empty last
    then open_range total (parse_unsigned max_u64 first)
    else closed total (parse_unsigned max_u64 first) (parse_unsigned max_u64 last)

abbrev split_ends : ℕ → Option (Str × Str) → Wanted
split_ends total none = whole
split_ends total (some (first, last)) = ends_of total (trim first) (trim last)

abbrev of_spec : ℕ → Option Str → Wanted
of_spec total none = whole
of_spec total (some spec) =
    if any (λ c. c == b',') spec
    then whole
    else if total == 0
    then unsatisfiable
    else split_ends total (split_once (λ c. c == b'-') spec)

unfoldable pub parse_range : Str → ℕ → Wanted
unfolding suffix open_range closed
parse_range header total = of_spec total (strip_prefix (codes "bytes=") (trim header))
