-- ===== src/Format.antt =====
-- src/format/mod.rs: the kinds of answer documents and what an endpoint accepts.
pub mod Control
pub mod Expand
pub mod Merge
pub mod Lines
use rescriptum.Prelude.{
  Bool, true, false, not, List, [], ◌∷◌, Option, none, some, Str, codes, str_eq, any,
  to_ascii_lowercase, if◌then◌else◌, String,
}

pub data Kind : Type 0 where
  toml yaml json xml text : Kind

-- `match name { "a" | "b" => …`
abbrev pub one_of : Str → List String → Bool
one_of s names = any (λ n. str_eq s (codes n)) names

unfoldable pub for_extension : Str → Option Kind
for_extension ext =
    let e = to_ascii_lowercase ext in
    if one_of e ("toml" ∷ [])
    then some toml
    else if one_of e ("yaml" ∷ "yml" ∷ [])
    then some yaml
    else if one_of e ("json" ∷ "ign" ∷ [])
    then some json
    else if one_of e ("xml" ∷ "autoyast" ∷ "unattend" ∷ [])
    then some xml
    else if one_of e ("ks" ∷ "cfg" ∷ "preseed" ∷ "seed" ∷ "ipxe" ∷ [])
    then some text
    else none

unfoldable pub content_type : Kind → Str
content_type toml = codes "text/plain; charset=utf-8"
content_type yaml = codes "text/yaml; charset=utf-8"
content_type json = codes "application/json"
content_type xml = codes "application/xml; charset=utf-8"
content_type text = codes "text/plain; charset=utf-8"

unfoldable pub label : Kind → Str
label toml = codes "toml"
label yaml = codes "yaml"
label json = codes "json"
label xml = codes "xml"
label text = codes "text"

-- `==` on kinds
abbrev pub kind_eq : Kind → Kind → Bool
kind_eq toml toml = true
kind_eq yaml yaml = true
kind_eq json json = true
kind_eq xml xml = true
kind_eq text text = true
kind_eq _ _ = false

unfoldable pub merges_structurally : Kind → Bool
merges_structurally k = not (kind_eq k text)

abbrev names : List String → Option (List Str)
names [] = some []
names (n ∷ ns) = elim (names ns) [ none ↦ none | some r ↦ some (codes n ∷ r) ]

unfoldable pub endpoint_formats : Str → Option (List Str)
endpoint_formats segment =
    let s = to_ascii_lowercase segment in
    if one_of s ("proxmox" ∷ "pve" ∷ "toml" ∷ [])
    then names ("toml" ∷ [])
    else if one_of s ("debian" ∷ "preseed" ∷ [])
    then names ("preseed" ∷ "seed" ∷ [])
    else if one_of s ("rhel" ∷ "centos" ∷ "fedora" ∷ "alma" ∷ "rocky" ∷ "kickstart" ∷ "ks" ∷ [])
    then names ("ks" ∷ [])
    else if one_of s ("ubuntu" ∷ "autoinstall" ∷ "cloudinit" ∷ "nocloud" ∷ "yaml" ∷ "yml" ∷ [])
    then names ("yaml" ∷ "yml" ∷ [])
    else if one_of s ("suse" ∷ "opensuse" ∷ "autoyast" ∷ [])
    then names ("autoyast" ∷ "xml" ∷ [])
    else if one_of s ("windows" ∷ "unattend" ∷ [])
    then names ("unattend" ∷ "xml" ∷ [])
    else if one_of s ("flatcar" ∷ "coreos" ∷ "ignition" ∷ "ign" ∷ [])
    then names ("ign" ∷ "json" ∷ [])
    else if one_of s ("json" ∷ [])
    then names ("json" ∷ "ign" ∷ [])
    else if one_of s ("xml" ∷ [])
    then names ("xml" ∷ [])
    else if one_of s ("cfg" ∷ [])
    then names ("cfg" ∷ [])
    else if one_of s ("ipxe" ∷ [])
    then names ("ipxe" ∷ [])
    else none

unfoldable pub canonical_stem : Str → Str
canonical_stem ext =
    let e = to_ascii_lowercase ext in
    if one_of e ("toml" ∷ [])
    then codes "proxmox"
    else if one_of e ("yaml" ∷ "yml" ∷ [])
    then codes "ubuntu"
    else if one_of e ("ign" ∷ [])
    then codes "flatcar"
    else if one_of e ("autoyast" ∷ [])
    then codes "suse"
    else if one_of e ("unattend" ∷ [])
    then codes "windows"
    else if one_of e ("ks" ∷ [])
    then codes "rhel"
    else if one_of e ("preseed" ∷ "seed" ∷ [])
    then codes "debian"
    else if one_of e ("ipxe" ∷ [])
    then codes "boot"
    else codes "answer"
