-- ===== src/Normalize.antt =====
-- `normalize` of src/select.rs: what every comparison of identifiers goes through.
use rescriptum.Prelude.{Bytes, map, filter, is_ascii_alphanumeric, lower, Str}

unfoldable pub normalize : Bytes → Str
normalize input = map lower (filter is_ascii_alphanumeric input)
