-- ===== src/Boot/Cpio/Layout.antt =====
-- The layout of an archive member.
use rescriptum.Prelude.{
  ℕ, ◌+◌, ◌-◌, ◌%◌, ◌≤◌, ◌<◌, false, ◌||◌, [], ◌∷◌, Bytes, Str, ◌==◌, ltb, is_empty, any, length,
  length-append, replicate, length-replicate, ◌≡◌, refl, arith, Bool-cases, inl, inr, ◌∙◌,
}
use mathlib.Core.Path.{subst}
use rescriptum.Prelude.Result.{ok, err}
use rescriptum.Prelude.Utf8.{encode}
use rescriptum.Boot.Cpio.{
  max_member, header_length, Member, too_large, unusable_name, align4, hex8, pad_to, unpadded,
  build, member, member_length, starts_with_slash,
}

align4-bounds : (n : ℕ) → (n ≤ align4 n) × (align4 n < n + 4) × (align4 n % 4 ≡ 0)
unfolding align4
align4-bounds n = (omega arith, omega arith, omega arith)

length-pad_to : (n : ℕ) (s : Bytes) → length s ≤ n → length (pad_to n s) ≡ n
length-pad_to n s h =
    length-append s (replicate (n - length s) 0)
    ∙ (omega (arith, length-replicate {A = ℕ} (n - length s) 0, h))

length-hex8 : (n : ℕ) → length (hex8 n) ≡ 8
unfolding hex8
length-hex8 n = refl

length-unpadded :
    (name : Bytes) (size ino : ℕ)
    → length (unpadded name size ino) ≡ header_length + length name + 1
unfolding hex8
length-unpadded name size ino = omega (arith, length-append name (0 ∷ []))

-- What an accepted member is: aligned, and no more than it needs.
pub record Aligned (name : Bytes) (size : ℕ) (m : Member) : Type 0 where
  pub prefix_aligned : length m.prefix % 4 ≡ 0
  pub whole_aligned : member_length m size % 4 ≡ 0
  pub header_and_name : header_length + length name + 1 ≤ length m.prefix
  pub tight : length m.prefix < header_length + length name + 5
  pub padding_tight : m.padding < 4

padded-Aligned :
    (name : Bytes) (size : ℕ) (p : Bytes)
    → length p ≡ header_length + length name + 1
    → Aligned name size
        (record { prefix = pad_to (align4 (length p)) p; padding = align4 size - size })
unfolding member_length
padded-Aligned name size p e =
    let (above, near, multiple) = align4-bounds (length p) in
    let (size_above, size_near, size_multiple) = align4-bounds size in
    let padded = length-pad_to (align4 (length p)) p above in
    record {
      prefix_aligned = omega (arith, padded, multiple);
      whole_aligned = omega (arith, padded, multiple, size_multiple, size_above);
      header_and_name = omega (arith, padded, e, above);
      tight = omega (arith, padded, e, near);
      padding_tight = omega (arith, size_near);
    }

-- A member that is built starts its data and ends itself on a multiple of four bytes, with fewer than
-- four bytes of padding after the header and name and fewer than four after the data; its size fits
-- the header's field, and its name is not empty, does not start with a slash and holds no NUL.
pub member-Aligned :
    (name : Str) (size ino : ℕ) {m : Member}
    → member name size ino ≡ ok m
    → Aligned (encode name) size m
      × (size ≤ max_member)
      × ((is_empty name || starts_with_slash name || any (λ c. c == 0) name) ≡ false)
unfolding member
member-Aligned name size ino {m} h = elim (Bool-cases (ltb max_member size)) [
  | inl large ↦ let bad : err too_large ≡ ok m = rw large at h in cc
  | inr fits ↦
      elim (Bool-cases (is_empty name || starts_with_slash name || any (λ c. c == 0) name)) [
        | inl unusable ↦ let bad : err unusable_name ≡ ok m = rw (fits, unusable) at h in cc
        | inr usable ↦
            let built : ok (build (encode name) size ino) ≡ ok m = rw (fits, usable) at h in
            let e : build (encode name) size ino ≡ m = cc in
            (
              subst (Aligned (encode name) size) e (
                  padded-Aligned (encode name) size (unpadded (encode name) size ino)
                    (length-unpadded (encode name) size ino)),
              ground (arith, fits),
              usable,
            )
      ]
]
