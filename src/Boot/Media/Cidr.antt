-- ===== src/Boot/Media/Cidr.antt =====
-- `in_cidr` and `allowed` of src/boot/media.rs. Parsing an address is the standard library's.
use Prim.Native.Nat.{bit_and}
use rescriptum.Prelude.{
  ℕ, ◌-◌, ◌*◌, ◌/◌, ◌%◌, ◌^◌, Bool, true, false, not, map, filter, Option, none, some, Str, Bytes,
  ◌==◌, ltb, if◌then◌else◌, str_eq, is_empty, any, trim, split, split_once, parse_unsigned, max_u32,
  length, take, get_or,
}

pub data IpAddr : Type 0 where
  v4 v6 : Bytes → IpAddr

-- `to_vec` of both, if they are of one family
abbrev octets : IpAddr → IpAddr → Option (Bytes × Bytes)
octets (v4 a) (v4 b) = some (a, b)
octets (v6 a) (v6 b) = some (a, b)
octets (v4 _) (v6 _) = none
octets (v6 _) (v4 _) = none

abbrev pub mask : ℕ → ℕ
mask leftover = 0xff * 2 ^ (8 - leftover) % 256

-- the leading bits of both are equal
unfoldable pub same_prefix : Bytes → Bytes → ℕ → Bool
same_prefix a b bits =
    let whole = bits / 8 in
    let leftover = bits % 8 in
    if ltb (length a * 8) bits
    then false
    else if not (str_eq (take whole a) (take whole b))
    then false
    else if leftover == 0
    then true
    else bit_and (get_or a whole 0) (mask leftover) == bit_and (get_or b whole 0) (mask leftover)

abbrev compare_octets : Option (Bytes × Bytes) → ℕ → Bool
compare_octets none bits = false
compare_octets (some (a, b)) bits = same_prefix a b bits

abbrev full_length : IpAddr → ℕ
full_length (v4 _) = 32
full_length (v6 _) = 128

abbrev against : IpAddr → Option ℕ → Option IpAddr → Bool
against address none network = false
against address (some bits) none = false
against address (some bits) (some network) = compare_octets (octets address network) bits

module _ (parse_ip : Str → Option IpAddr) where
  abbrev cidr_parts : IpAddr → Str → Option (Str × Str) → Bool
  cidr_parts address cidr none = against address (some (full_length address)) (parse_ip cidr)
  cidr_parts address cidr (some (network, bits)) =
      against address (parse_unsigned max_u32 bits) (parse_ip network)

  unfoldable pub in_cidr : IpAddr → Str → Bool
  unfolding same_prefix
  in_cidr address cidr = cidr_parts address cidr (split_once (λ c. c == b'/') cidr)

  unfoldable pub allowed : Option Str → IpAddr → Bool
  unfolding in_cidr
  allowed none peer = true
  allowed (some list) peer =
      any (in_cidr peer) (filter (λ s. not (is_empty s)) (map trim (split (λ c. c == b',') list)))
