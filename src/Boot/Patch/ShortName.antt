-- ===== src/Boot/Patch/ShortName.antt =====
-- The short name of src/boot/patch.rs is short.
use rescriptum.Prelude.Utf8.Ascii.{is_ascii, encode-ascii}
use rescriptum.Prelude.{
  all, true, ◌≡◌, refl, ap, zero, suc, ℕ, ◌+◌, ◌*◌, ◌≤◌, [], ◌∷◌, ◌++◌, Option, none, some, Str,
  codes, if◌then◌else◌, ltb, length, map, is_ascii_alphanumeric, is_empty, arith, length-append,
  length-take, Bool-cases, inl, inr,
}
use rescriptum.Prelude.Utf8.{encode, encode_char}
use rescriptum.Store.File.{rsplit_dot}
use rescriptum.Boot.Patch.Build.{mangle, mangled, mangled_parts, clean, upper}

length-encode_char : (c : ℕ) → length (encode_char c) ≤ 4
length-encode_char c = elim (Bool-cases (ltb c 0x80)) [
  | inl one ↦ rw one (omega arith)
  | inr more ↦ elim (Bool-cases (ltb c 0x800)) [
    | inl two ↦ rw (more, two) (omega arith)
    | inr most ↦ elim (Bool-cases (ltb c 0x10000)) [
      | inl three ↦ rw (more, most, three) (omega arith)
      | inr four ↦ rw (more, most, four) (omega arith)
    ]
  ]
]

length-encode : (s : Str) → length (encode s) ≤ 4 * length s
length-encode [] = omega arith
length-encode (c ∷ s) =
    omega (arith, length-encode s, length-encode_char c, length-append (encode_char c) (encode s))

length-clean : (text : Str) (limit : ℕ) → length (clean text limit) ≤ limit
length-clean text limit = omega (
  arith,
  length-take limit (map (λ c. if is_ascii_alphanumeric (upper c) then upper c else b'_') text),
)

length-mangled :
    (stem extension : Str) → length (mangled stem extension) ≤ length stem + length extension + 3
length-mangled stem extension = elim (Bool-cases (is_empty extension)) [
  | inl bare ↦ rw bare (omega (arith, length-append stem (codes ".;1")))
  | inr full ↦ rw full (
      omega (
        arith,
        length-append stem (b'.' ∷ (extension ++ codes ";1")),
        length-append extension (codes ";1"),
      ))
]

length-parts : (parts : Option (Str × Str)) (name : Str) → length (mangled_parts parts name) ≤ 14
length-parts none name = omega (arith, length-mangled (clean name 8) [], length-clean name 8)
length-parts (some (stem, extension)) name = omega (
  arith,
  length-mangled (clean stem 8) (clean extension 3),
  length-clean stem 8,
  length-clean extension 3,
)

upper_ascii : (c : ℕ) → is_ascii (if is_ascii_alphanumeric (upper c) then upper c else b'_') ≡ true
upper_ascii c = elim (Bool-cases (is_ascii_alphanumeric (upper c))) [
  | inl plain ↦ rw plain (ground (arith, plain))
  | inr other ↦ rw other refl
]

all-append :
    (xs ys : Str) → all is_ascii xs ≡ true → all is_ascii ys ≡ true → all is_ascii (xs ++ ys) ≡ true
all-append [] ys h k = k
all-append (x ∷ xs) ys h k = ground (arith, all-append xs ys)

clean-ascii : (text : Str) (limit : ℕ) → all is_ascii (clean text limit) ≡ true
clean-ascii text zero = refl
clean-ascii [] (suc limit) = refl
clean-ascii (c ∷ text) (suc limit) = ground (arith, upper_ascii c, clean-ascii text limit)

mangled-ascii :
    (stem extension : Str)
    → all is_ascii stem ≡ true
    → all is_ascii extension ≡ true
    → all is_ascii (mangled stem extension) ≡ true
mangled-ascii stem extension h k = elim (Bool-cases (is_empty extension)) [
  | inl bare ↦ rw bare (all-append stem (codes ".;1") h refl)
  | inr full ↦ rw full (
      all-append stem (b'.' ∷ (extension ++ codes ";1")) h
        (all-append (b'.' ∷ extension) (codes ";1") k refl))
]

parts-ascii :
    (parts : Option (Str × Str)) (name : Str) → all is_ascii (mangled_parts parts name) ≡ true
parts-ascii none name = mangled-ascii (clean name 8) [] (clean-ascii name 8) refl
parts-ascii (some (stem, extension)) name =
    mangled-ascii (clean stem 8) (clean extension 3) (clean-ascii stem 8) (clean-ascii extension 3)

long_enough : (stem extension : Str) → 3 ≤ length (mangled stem extension)
long_enough stem extension = elim (Bool-cases (is_empty extension)) [
  | inl bare ↦ rw bare (omega (arith, length-append stem (codes ".;1")))
  | inr full ↦ rw full (
      omega (
        arith,
        length-append stem (b'.' ∷ (extension ++ codes ";1")),
        length-append extension (codes ";1"),
      ))
]

parts-long_enough :
    (parts : Option (Str × Str)) (name : Str) → 3 ≤ length (mangled_parts parts name)
parts-long_enough none name = long_enough (clean name 8) []
parts-long_enough (some (stem, extension)) name = long_enough (clean stem 8) (clean extension 3)

-- an identifier of three to fourteen bytes
pub encode-mangle_short :
    (name : Str) → (3 ≤ length (encode (mangle name))) × (length (encode (mangle name)) ≤ 14)
unfolding mangle
encode-mangle_short name =
    let plain : encode (mangled_parts (rsplit_dot name) name)
        ≡ mangled_parts (rsplit_dot name) name =
      encode-ascii (mangled_parts (rsplit_dot name) name) (parts-ascii (rsplit_dot name) name) in
    (
      omega (arith, ap length plain, parts-long_enough (rsplit_dot name) name),
      omega (arith, ap length plain, length-parts (rsplit_dot name) name),
    )

pub length-encode-mangle : (name : Str) → length (encode (mangle name)) ≤ 255
unfolding mangle
length-encode-mangle name = omega (
  arith,
  length-encode (mangled_parts (rsplit_dot name) name),
  length-parts (rsplit_dot name) name,
)
