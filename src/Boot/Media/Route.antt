-- ===== src/Boot/Media/Route.antt =====
-- `route` of src/boot/media.rs.
use rescriptum.Prelude.{
  ◌||◌, Option, none, some, Str, ◌==◌, codes, if◌then◌else◌, str_eq, is_empty, trim_start_matches,
  strip_prefix, split_once,
}

pub data What : Type 0 where
  image kernel initrd initrd_iso : What
  inside : Str → What

abbrev inside_of : Option Str → Option What
inside_of none = none
inside_of (some path) = if is_empty path then none else some (inside path)

unfoldable pub what_of : Str → Option What
what_of rest =
    if str_eq rest (codes "iso") || str_eq rest (codes "img")
    then some image
    else if str_eq rest (codes "kernel")
    then some kernel
    else if str_eq rest (codes "initrd")
    then some initrd
    else if str_eq rest (codes "initrd+iso")
    then some initrd_iso
    else inside_of (strip_prefix (codes "file/") rest)

abbrev pair_with : Str → Option What → Option (Str × What)
pair_with id none = none
pair_with id (some what) = some (id, what)

abbrev routed : Option (Str × Str) → Option (Str × What)
routed none = none
routed (some (id, rest)) = if is_empty id then none else pair_with id (what_of rest)

unfoldable pub route : Str → Option (Str × What)
unfolding what_of
route path = routed (split_once (λ c. c == b'/') (trim_start_matches (λ c. c == b'/') path))
