-- ===== src/Facts/Labels/Accepts.antt =====
-- When a value answers to a selector pattern, on both as they are written: what `normalize`,
-- `normalize_pattern` and `glob` of src/facts.rs and src/select.rs come to together.
use rescriptum.Prelude.{
  ℕ, Bool, true, false, not, ◌&&◌, ◌||◌, [], ◌∷◌, Str, ◌==◌, if◌then◌else◌, any,
  is_ascii_alphanumeric, lower, ◌≡◌, refl, sym, ap, ◌∙◌, arith, Bool-cases, inl, inr,
}
use rescriptum.Normalize.{normalize}
use rescriptum.Facts.Glob.{glob}
use rescriptum.Facts.Glob.Wild.{wild}
use rescriptum.Facts.Glob.Correct.{glob-wild}
use rescriptum.Facts.Query.{normalize_pattern}
use rescriptum.Facts.Labels.{Facts, values, matches}
use rescriptum.Facts.Labels.Laws.{any_same, normalize-Starless}

-- `*` stands for any characters, `?` for one letter or digit, a letter or a digit for itself in
-- either case; any other character of the pattern or of the value is passed over.
unfoldable pub accepts : Str → Str → Bool
accepts [] [] = true
accepts [] (c ∷ t) = let rest = accepts [] t in not (is_ascii_alphanumeric c) && rest
accepts (q ∷ p) [] =
    let rest = accepts p [] in (q == b'*' || not (q == b'?' || is_ascii_alphanumeric q)) && rest
accepts (q ∷ p) (c ∷ t) =
    let without_q = accepts p (c ∷ t) in
    let without_c = accepts (q ∷ p) t in
    let without_both = accepts p t in
    if q == b'*'
    then without_q || without_c
    else if not (q == b'?' || is_ascii_alphanumeric q)
    then without_q
    else if not (is_ascii_alphanumeric c)
    then without_c
    else (q == b'?' || lower q == lower c) && without_both

-- what the two normalizations do with one character
kept :
    (c : ℕ) (t : Str) → is_ascii_alphanumeric c ≡ true → normalize (c ∷ t) ≡ lower c ∷ normalize t
unfolding normalize
kept c t h = rw h refl

dropped : (c : ℕ) (t : Str) → is_ascii_alphanumeric c ≡ false → normalize (c ∷ t) ≡ normalize t
unfolding normalize
dropped c t h = rw h refl

abbrev counts : ℕ → Bool
counts q = is_ascii_alphanumeric q || q == b'*' || q == b'?'

kept_pattern :
    (q : ℕ) (p : Str) → counts q ≡ true → normalize_pattern (q ∷ p) ≡ lower q ∷ normalize_pattern p
unfolding normalize_pattern
kept_pattern q p h = rw h refl

dropped_pattern :
    (q : ℕ) (p : Str) → counts q ≡ false → normalize_pattern (q ∷ p) ≡ normalize_pattern p
unfolding normalize_pattern
dropped_pattern q p h = rw h refl

-- wildcard matching by the pattern's first character
module _ (q : ℕ) (p : Str) where
  wild_star :
      (c : ℕ) (t : Str)
      → (q == b'*') ≡ true
      → wild (q ∷ p) (c ∷ t) ≡ (wild p (c ∷ t) || wild (q ∷ p) t)
  unfolding wild
  wild_star c t h = rw h refl

  wild_star_end : (q == b'*') ≡ true → wild (q ∷ p) [] ≡ wild p []
  unfolding wild
  wild_star_end h = rw h refl

  wild_star_more : (t : Str) → (q == b'*') ≡ true → (wild p t || wild (q ∷ p) t) ≡ wild (q ∷ p) t
  wild_star_more [] h =
      ap (λ b. wild p [] || b) (wild_star_end h) ∙ twice (wild p []) ∙ sym (wild_star_end h)
    where
      twice : (b : Bool) → (b || b) ≡ b
      twice b = ground arith
  wild_star_more (c ∷ t) h =
      ap (λ b. wild p (c ∷ t) || b) (wild_star c t h)
      ∙ absorbed (wild p (c ∷ t)) (wild (q ∷ p) t)
      ∙ sym (wild_star c t h)
    where
      absorbed : (a b : Bool) → (a || (a || b)) ≡ (a || b)
      absorbed a b = ground arith

  wild_plain :
      (c : ℕ) (t : Str)
      → (q == b'*') ≡ false
      → wild (q ∷ p) (c ∷ t) ≡ ((q == b'?' || q == c) && wild p t)
  unfolding wild
  wild_plain c t h = rw h refl

  wild_plain_end : (q == b'*') ≡ false → wild (q ∷ p) [] ≡ false
  unfolding wild
  wild_plain_end h = rw h refl

lower_star : (q : ℕ) → (q == b'*') ≡ true → (lower q == b'*') ≡ true
lower_star q h = ground arith

lower_plain : (q : ℕ) → (q == b'*') ≡ false → counts q ≡ true → (lower q == b'*') ≡ false
lower_plain q h k = ground arith

lower_any : (q : ℕ) → (lower q == b'?') ≡ (q == b'?')
lower_any q = ground arith

counts_star : (q : ℕ) → (q == b'*') ≡ true → counts q ≡ true
counts_star q h = ground arith

test_of :
    (q : ℕ) → (q == b'*') ≡ false → not (q == b'?' || is_ascii_alphanumeric q) ≡ not (counts q)
test_of q h = ground arith

or2 : (a a' b b' : Bool) → a ≡ a' → b ≡ b' → (a || b) ≡ (a' || b')
or2 a a' b b' h k = ap (λ x. x || b) h ∙ ap (λ x. a' || x) k

-- a pattern on an empty value
accepts-end :
    (q : ℕ) (p : Str)
    → accepts p [] ≡ wild (normalize_pattern p) []
    → accepts (q ∷ p) [] ≡ wild (normalize_pattern (q ∷ p)) []
unfolding accepts
accepts-end q p rest = elim (Bool-cases (counts q)) [
  | inr over ↦
      let skipped : (q == b'*' || not (q == b'?' || is_ascii_alphanumeric q)) ≡ true =
        ground (arith, over) in
      ap (λ b. b && accepts p []) skipped
      ∙ rest
      ∙ ap (λ w. wild w []) (sym (dropped_pattern q p over))
  | inl in_it ↦ elim (Bool-cases (q == b'*')) [
    | inl star ↦
        let free : (q == b'*' || not (q == b'?' || is_ascii_alphanumeric q)) ≡ true =
          ground (arith, star) in
        ap (λ b. b && accepts p []) free
        ∙ rest
        ∙ sym (wild_star_end (lower q) (normalize_pattern p) (lower_star q star))
        ∙ ap (λ w. wild w []) (sym (kept_pattern q p in_it))
    | inr plain ↦
        let stuck : (q == b'*' || not (q == b'?' || is_ascii_alphanumeric q)) ≡ false =
          ground (arith, plain, in_it) in
        ap (λ b. b && accepts p []) stuck
        ∙ sym (wild_plain_end (lower q) (normalize_pattern p) (lower_plain q plain in_it))
        ∙ ap (λ w. wild w []) (sym (kept_pattern q p in_it))
  ]
]

module _ (q c : ℕ) (p t : Str) where
  accepts_star :
      (q == b'*') ≡ true → accepts (q ∷ p) (c ∷ t) ≡ (accepts p (c ∷ t) || accepts (q ∷ p) t)
  unfolding accepts
  accepts_star h = rw h refl

  accepts_over :
      (q == b'*') ≡ false → counts q ≡ false → accepts (q ∷ p) (c ∷ t) ≡ accepts p (c ∷ t)
  unfolding accepts
  accepts_over h k = rw (h, test_of q h, k) refl

  accepts_past :
      (q == b'*') ≡ false
      → counts q ≡ true
      → is_ascii_alphanumeric c ≡ false
      → accepts (q ∷ p) (c ∷ t) ≡ accepts (q ∷ p) t
  unfolding accepts
  accepts_past h k l = rw (h, test_of q h, k, l) refl

  accepts_one :
      (q == b'*') ≡ false
      → counts q ≡ true
      → is_ascii_alphanumeric c ≡ true
      → accepts (q ∷ p) (c ∷ t) ≡ ((q == b'?' || lower q == lower c) && accepts p t)
  unfolding accepts
  accepts_one h k l = rw (h, test_of q h, k, l) refl

  -- one character of each, where the rest is known
  accepts-step :
      accepts p (c ∷ t) ≡ wild (normalize_pattern p) (normalize (c ∷ t))
      → accepts (q ∷ p) t ≡ wild (normalize_pattern (q ∷ p)) (normalize t)
      → accepts p t ≡ wild (normalize_pattern p) (normalize t)
      → accepts (q ∷ p) (c ∷ t) ≡ wild (normalize_pattern (q ∷ p)) (normalize (c ∷ t))
  accepts-step without_q without_c without_both =
      let np = normalize_pattern p in
      let nt = normalize t in
      elim (Bool-cases (q == b'*')) [
        | inl star ↦
            let in_it = kept_pattern q p (counts_star q star) in
            accepts_star star
            ∙ or2 (accepts p (c ∷ t)) (wild np (normalize (c ∷ t))) (accepts (q ∷ p) t)
                (wild (lower q ∷ np) nt) without_q (without_c ∙ ap (λ w. wild w nt) in_it)
            ∙ elim (Bool-cases (is_ascii_alphanumeric c)) [
              | inl k ↦
                  ap (λ n. wild np n || wild (lower q ∷ np) nt) (kept c t k)
                  ∙ sym (wild_star (lower q) np (lower c) nt (lower_star q star))
                  ∙ ap (wild (lower q ∷ np)) (sym (kept c t k))
              | inr k ↦
                  ap (λ n. wild np n || wild (lower q ∷ np) nt) (dropped c t k)
                  ∙ wild_star_more (lower q) np nt (lower_star q star)
                  ∙ ap (wild (lower q ∷ np)) (sym (dropped c t k))
            ]
            ∙ ap (λ w. wild w (normalize (c ∷ t))) (sym in_it)
        | inr plain ↦ elim (Bool-cases (counts q)) [
          | inr over ↦
              accepts_over plain over
              ∙ without_q
              ∙ ap (λ w. wild w (normalize (c ∷ t))) (sym (dropped_pattern q p over))
          | inl in_it ↦ elim (Bool-cases (is_ascii_alphanumeric c)) [
            | inr k ↦
                accepts_past plain in_it k
                ∙ without_c
                ∙ ap (wild (normalize_pattern (q ∷ p))) (sym (dropped c t k))
            | inl k ↦
                accepts_one plain in_it k
                ∙ ap (λ b. (q == b'?' || lower q == lower c) && b) without_both
                ∙ ap (λ b. (b || lower q == lower c) && wild np nt) (sym (lower_any q))
                ∙ sym (wild_plain (lower q) np (lower c) nt (lower_plain q plain in_it))
                ∙ ap (λ w. wild w (lower c ∷ nt)) (sym (kept_pattern q p in_it))
                ∙ ap (wild (normalize_pattern (q ∷ p))) (sym (kept c t k))
          ]
        ]
      ]

accepts-blank : (t : Str) → accepts [] t ≡ wild (normalize_pattern []) (normalize t)
unfolding accepts wild normalize normalize_pattern
accepts-blank [] = refl
accepts-blank (c ∷ t) = elim (Bool-cases (is_ascii_alphanumeric c)) [
  | inl k ↦ rw k refl
  | inr k ↦ rw k (accepts-blank t)
]

accepts-wild : (p t : Str) → accepts p t ≡ wild (normalize_pattern p) (normalize t)
unfolding normalize
accepts-wild [] t = accepts-blank t
accepts-wild (q ∷ p) [] = accepts-end q p (accepts-wild p [])
accepts-wild (q ∷ p) (c ∷ t) =
    accepts-step q c p t (accepts-wild p (c ∷ t)) (accepts-wild (q ∷ p) t) (accepts-wild p t)

-- `matches` holds exactly when one of the values of the key answers to the pattern, as both are
-- written: `*` stands for any characters and `?` for one letter or digit, letter case does not
-- count, and other characters of the pattern and of the values are passed over.
pub matches-accepts :
    (facts : Facts) (key pattern : Str)
    → matches facts key pattern ≡ any (accepts pattern) (values facts key)
unfolding matches
matches-accepts facts key pattern =
    any_same (λ v. glob (normalize_pattern pattern) (normalize v)) (accepts pattern)
      (values facts key)
      (λ v.
        glob-wild (normalize_pattern pattern) (normalize v) (normalize-Starless v)
        ∙ sym (accepts-wild pattern v))
