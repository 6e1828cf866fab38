-- ===== src/Boot/Patch/Build.antt =====
-- The directory records that src/boot/patch.rs writes, and the mode file.
use rescriptum.Prelude.{
  ℕ, ◌+◌, ◌/◌, ◌%◌, Bool, [], ◌∷◌, ◌++◌, map, Option, none, some, Bytes, Str, codes, ◌==◌,
  if◌then◌else◌, length, take, replicate, is_empty, is_ascii_alphanumeric, between, ◌-◌,
}
use rescriptum.Prelude.Utf8.{encode}
use rescriptum.Store.File.{rsplit_dot}

-- `to_le_bytes` and `to_be_bytes` of a u32, one behind the other
unfoldable pub both_endian32 : ℕ → Bytes
both_endian32 v =
    let a = v % 256 in
    let b = v / 256 % 256 in
    let c = v / 65536 % 256 in let d = v / 16777216 % 256 in a ∷ b ∷ c ∷ d ∷ d ∷ c ∷ b ∷ a ∷ []

unfoldable pub both_endian16 : ℕ → Bytes
both_endian16 v = let a = v % 256 in let b = v / 256 % 256 in a ∷ b ∷ b ∷ a ∷ []

-- the 33 bytes in front of the identifier: the length of the record at 0, the extent at 2 and 10,
-- the flags at 25, the volume at 28 and the length of the identifier at 32
abbrev header : ℕ → ℕ → ℕ → ℕ → Bytes
header len lba size name_len =
    (len % 256 ∷ 0 ∷ [])
    ++ (both_endian32 lba
        ++ (both_endian32 size
            ++ ((0 ∷ 0 ∷ 0 ∷ 0 ∷ 0 ∷ 0 ∷ 0 ∷ 0 ∷ 0 ∷ 0 ∷ [])
                ++ (both_endian16 1 ++ (name_len % 256 ∷ [])))))

abbrev pad_even : ℕ → Bytes
pad_even n = if n % 2 == 0 then 0 ∷ [] else []

abbrev pad_odd : ℕ → Bytes
pad_odd n = if n % 2 == 1 then 0 ∷ [] else []

abbrev pub record_body : Bytes → Bytes → Bytes
record_body identifier system = identifier ++ (pad_even (length identifier) ++ system)

-- `record`
unfoldable pub make_record : Bytes → ℕ → ℕ → Bytes → Bytes
unfolding both_endian32 both_endian16
make_record identifier lba size system =
    let n = 33 + length (record_body identifier system) in
    let padding = pad_odd n in
    header (n + length padding) lba size (length identifier)
    ++ (record_body identifier system ++ padding)

abbrev pub upper : ℕ → ℕ
upper c = if between b'a' b'z' c then c - 32 else c

abbrev pub clean : Str → ℕ → Str
clean text limit =
    take limit (map (λ c. if is_ascii_alphanumeric (upper c) then upper c else b'_') text)

abbrev pub mangled : Str → Str → Str
mangled stem extension =
    if is_empty extension then stem ++ codes ".;1" else stem ++ (b'.' ∷ (extension ++ codes ";1"))

abbrev pub mangled_parts : Option (Str × Str) → Str → Str
mangled_parts none name = mangled (clean name 8) []
mangled_parts (some (stem, extension)) name = mangled (clean stem 8) (clean extension 3)

unfoldable pub mangle : Str → Str
unfolding rsplit_dot
mangle name = mangled_parts (rsplit_dot name) name

-- the `NM` entry of a name
abbrev pub nm_entry : Bytes → Bytes
nm_entry name = b'N' ∷ b'M' ∷ ((5 + length name) % 256) ∷ 1 ∷ 0 ∷ name

unfoldable pub iso9660_record : Str → ℕ → ℕ → Bool → ℕ → Bytes
unfolding mangle make_record
iso9660_record name lba size rock_ridge skip =
    make_record (encode (mangle name)) lba size
      (replicate skip 0 ++ (if rock_ridge then nm_entry (encode name) else []))

-- `encode_utf16`, each unit in big-endian order
abbrev unit_bytes : ℕ → Bytes
unit_bytes u = u / 256 ∷ u % 256 ∷ []

abbrev pub utf16_bytes : Str → Bytes
utf16_bytes [] = []
utf16_bytes (c ∷ s) =
    (if between 0 0xffff c
      then unit_bytes c
      else unit_bytes (0xd800 + (c - 0x10000) / 1024) ++ unit_bytes (0xdc00 + (c - 0x10000) % 1024))
    ++ utf16_bytes s

unfoldable pub joliet_record : Str → ℕ → ℕ → Bytes
unfolding make_record
joliet_record name lba size = make_record (utf16_bytes name) lba size []

-- `escape` and `mode_file`
unfoldable pub escape : Str → Str
escape [] = []
escape (c ∷ s) =
    (if c == 92 then 92 ∷ 92 ∷ [] else if c == 34 then 92 ∷ 34 ∷ [] else c ∷ []) ++ escape s

abbrev quoted : Str → Str → Str
quoted key value = key ++ (codes " = " ++ (34 ∷ (escape value ++ (34 ∷ 10 ∷ []))))

abbrev quoted_if : Str → Option Str → Str
quoted_if key none = []
quoted_if key (some value) = quoted key value

unfoldable pub mode_file : Str → Option Str → Option Str → Str
unfolding escape
mode_file url fingerprint token =
    codes "# Written by rescriptum. The Proxmox installer reads this from the mounted image"
    ++ (10 ∷ [])
    ++ codes "# to learn where to POST its hardware inventory."
    ++ (10 ∷ [])
    ++ quoted (codes "mode") (codes "http")
    ++ quoted (codes "partition_label") (codes "proxmox-ais")
    ++ (10 ∷ [])
    ++ codes "[http]"
    ++ (10 ∷ [])
    ++ quoted (codes "url") url
    ++ quoted_if (codes "cert_fingerprint") fingerprint
    ++ quoted_if (codes "token") token
