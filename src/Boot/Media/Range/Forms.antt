-- ===== src/Boot/Media/Range/Forms.antt =====
-- What a range request is answered with.
use rescriptum.Prelude.{
  ℕ, ◌≤◌, ◌<◌, Option, none, some, Str, ◌==◌, codes, any, trim, strip_prefix, split_once, [], ◌∷◌,
  arith, Bool-cases, inl, inr,
}
use rescriptum.Boot.Media.Range.{
  Wanted, whole, unsatisfiable, part, suffix, open_range, closed, ends_of, split_ends, of_spec,
  parse_range,
}

-- a part lies inside an entity of `total` bytes, and is not empty
abbrev pub Fits : ℕ → Wanted → Type 0
Fits total (part first last) = (first ≤ last) × (last < total)
Fits total whole = Unit
Fits total unsatisfiable = Unit

suffix-Fits : (total : ℕ) (o : Option ℕ) → 0 < total → Fits total (suffix total o)
unfolding suffix
suffix-Fits total none pos = tt
suffix-Fits total (some n) pos = ground arith

open_range-Fits : (total : ℕ) (o : Option ℕ) → Fits total (open_range total o)
unfolding open_range
open_range-Fits total none = tt
open_range-Fits total (some n) = ground arith

closed-Fits : (total : ℕ) (o p : Option ℕ) → Fits total (closed total o p)
unfolding closed
closed-Fits total none p = tt
closed-Fits total (some n) none = tt
closed-Fits total (some n) (some m) = ground arith

ends_of-Fits : (total : ℕ) (first last : Str) → 0 < total → Fits total (ends_of total first last)
ends_of-Fits total [] [] pos = tt
ends_of-Fits total [] (c ∷ s) pos = suffix-Fits total _ pos
ends_of-Fits total (c ∷ s) [] pos = open_range-Fits total _
ends_of-Fits total (c ∷ s) (d ∷ t) pos = closed-Fits total _ _

split_ends-Fits : (total : ℕ) (o : Option (Str × Str)) → 0 < total → Fits total (split_ends total o)
split_ends-Fits total none pos = tt
split_ends-Fits total (some (a, b)) pos = ends_of-Fits total (trim a) (trim b) pos

of_spec-Fits : (total : ℕ) (o : Option Str) → Fits total (of_spec total o)
of_spec-Fits total none = tt
of_spec-Fits total (some spec) = elim (Bool-cases (any (λ c. c == b',') spec)) [
  | inl h ↦ rw h tt
  | inr h ↦ rw h (elim (Bool-cases (total == 0)) [
    | inl z ↦ rw z tt
    | inr z ↦ rw z (split_ends-Fits total (split_once (λ c. c == b'-') spec) (ground arith))
  ])
]

-- Whatever the header says, a partial answer is a range of at least one byte inside the entity.
pub parse_range-Fits : (header : Str) (total : ℕ) → Fits total (parse_range header total)
unfolding parse_range
parse_range-Fits header total = of_spec-Fits total (strip_prefix (codes "bytes=") (trim header))
