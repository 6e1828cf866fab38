-- ===== src/Store/File/Names.antt =====
-- Names of documents and of temporary files: which of them can be served.
use rescriptum.Prelude.{
  ℕ, Bool, true, false, not, ◌&&◌, List, [], ◌∷◌, ◌++◌, any, all, none, some, Str, codes, String,
  ◌==◌, str_eq, str_eq_iff, str_eq_self, to_ascii_lowercase, is_ascii_digit, is_empty, decimal,
  lower, ◌≡◌, refl, sym, ap, ◌∙◌, arith, Bool-cases, Option-cases, inl, inr, append_assoc,
}
use rescriptum.Prelude.Decimal.{decimal_digits}
use mathlib.Core.Path.{subst}
use rescriptum.Format.{Kind, for_extension, canonical_stem, one_of}
use rescriptum.Admin.Write.{valid_format}
use rescriptum.Store.File.{
  rsplit_dot, extension, with_extension, file_stem, servable, is_visible, canonical_name,
  tmp_extension,
}

-- a name that answers for a format
unfoldable pub passes : Str → Str → Bool
unfolding is_visible servable
passes g name =
    is_visible name && elim (servable name) [ none ↦ false | some format ↦ str_eq format g ]

abbrev dotless : Str → Bool
dotless s = not (any (λ c. c == b'.') s)

rsplit_dot-none : (b : Str) → dotless b ≡ true → rsplit_dot b ≡ none
unfolding rsplit_dot
rsplit_dot-none [] h = refl
rsplit_dot-none (c ∷ b) h = elim (Bool-cases (c == b'.')) [
  | inl dot ↦ absurd (ground arith)
  | inr other ↦
      let rest : dotless b ≡ true = ground arith in rw (rsplit_dot-none b rest) (rw other refl)
]

rsplit_dot-append : (a b : Str) → dotless b ≡ true → rsplit_dot (a ++ (b'.' ∷ b)) ≡ some (a, b)
unfolding rsplit_dot
rsplit_dot-append [] b h = rw (rsplit_dot-none b h) refl
rsplit_dot-append (c ∷ a) b h = rw (rsplit_dot-append a b h) refl

extension-append :
    (c : ℕ) (a b : Str) → dotless b ≡ true → extension ((c ∷ a) ++ (b'.' ∷ b)) ≡ some b
unfolding extension
extension-append c a b h = rw (rsplit_dot-append (c ∷ a) b h) refl

-- what holds of every extension that has a kind holds of the extension at hand
one_of-all :
    (p : Str → Bool) (e : Str) (names : List String)
    → all (λ n. p (codes n)) names ≡ true
    → one_of e names ≡ true
    → p e ≡ true
one_of-all p e [] good h = absurd (ground arith)
one_of-all p e (n ∷ names) good h = elim (Bool-cases (str_eq e (codes n))) [
  | inl same ↦ subst (λ s. p s ≡ true) (sym ((str_eq_iff e (codes n)).0 same)) (ground arith)
  | inr other ↦ one_of-all p e names (ground arith) (ground arith)
]

abbrev kinds : List String
kinds =
    "toml" ∷ "yaml" ∷ "yml" ∷ "json" ∷ "ign" ∷ "xml" ∷ "autoyast" ∷ "unattend" ∷ "ks" ∷ "cfg"
    ∷ "preseed" ∷ "seed" ∷ "ipxe" ∷ []

known_extension :
    (ext : Str) (k : Kind)
    → for_extension ext ≡ some k
    → one_of (to_ascii_lowercase ext) kinds ≡ true
unfolding for_extension
known_extension ext k h = ground (arith, h)

known-all :
    (p : Str → Bool) (ext : Str) (k : Kind)
    → all (λ n. p (codes n)) kinds ≡ true
    → for_extension ext ≡ some k
    → p (to_ascii_lowercase ext) ≡ true
known-all p ext k good h =
    one_of-all p (to_ascii_lowercase ext) kinds good (known_extension ext k h)

-- a name that ends in a number is never served
abbrev starts_with_digit : Str → Bool
starts_with_digit [] = true
starts_with_digit (c ∷ _) = is_ascii_digit c

lower_digit : (c : ℕ) → is_ascii_digit c ≡ true → is_ascii_digit (lower c) ≡ true
lower_digit c h = ground arith

lower_digits :
    (s : Str) → all is_ascii_digit s ≡ true → starts_with_digit (to_ascii_lowercase s) ≡ true
lower_digits [] h = refl
lower_digits (c ∷ s) h = lower_digit c (ground arith)

digits_unknown : (ext : Str) → all is_ascii_digit ext ≡ true → for_extension ext ≡ none
digits_unknown ext h = elim (Option-cases (for_extension ext)) [
  | inl unknown ↦ unknown
  | inr (k, known) ↦
      let no : not (starts_with_digit (to_ascii_lowercase ext)) ≡ true =
        known-all (λ s. not (starts_with_digit s)) ext k refl known in
      absurd (ground (arith, lower_digits ext h))
]

digits_dotless : (s : Str) → all is_ascii_digit s ≡ true → dotless s ≡ true
digits_dotless [] h = refl
digits_dotless (c ∷ s) h = ground (arith, digits_dotless s)

lower_all :
    (s : Str) → all is_ascii_digit s ≡ true → all is_ascii_digit (to_ascii_lowercase s) ≡ true
lower_all [] h = refl
lower_all (c ∷ s) h = ground (arith, lower_all s, lower_digit c)

unpassed : (g a b : Str) → all is_ascii_digit b ≡ true → passes g (a ++ (b'.' ∷ b)) ≡ false
unfolding passes servable extension
unpassed g [] b h = refl
unpassed g (c ∷ a) b h =
    rw (rsplit_dot-append (c ∷ a) b (digits_dotless b h))
      (rw (digits_unknown (to_ascii_lowercase b) (lower_all b h), for_extension) (ground arith))

pub tmp-passes :
    (g name : Str) (pid seq : ℕ) → passes g (with_extension name (tmp_extension pid seq)) ≡ false
unfolding with_extension tmp_extension
tmp-passes g name pid seq =
    let behind = b'.' ∷ decimal seq in
    ap (passes g)
      (sym (append_assoc (file_stem name) (b'.' ∷ (codes "tmp." ++ decimal pid)) behind))
    ∙ unpassed g (file_stem name ++ (b'.' ∷ (codes "tmp." ++ decimal pid))) (decimal seq)
        (decimal_digits seq)

abbrev is_stem : Str → Bool
is_stem s = not (is_empty s) && is_visible s

canonical_stem_lem : (ext : Str) → is_stem (canonical_stem ext) ≡ true
unfolding canonical_stem is_visible
canonical_stem_lem ext = ground arith

stem-passes :
    (stem format : Str) (k : Kind)
    → is_stem stem ≡ true
    → for_extension format ≡ some k
    → to_ascii_lowercase format ≡ format
    → passes format (stem ++ (b'.' ∷ format)) ≡ true
unfolding passes servable
stem-passes [] format k good known small = absurd (ground arith)
stem-passes (c ∷ stem) format k good known small =
    let no_dot : dotless format ≡ true =
      subst (λ s. dotless s ≡ true) small (known-all dotless format k refl known) in
    rw (extension-append c stem format no_dot)
      (rw small (rw known (rw small (ground (arith, good, str_eq_self format)))))

-- the name under which a document of a format is created answers for that format
pub canonical_name-passes :
    (format : Str)
    → valid_format format ≡ true
    → to_ascii_lowercase format ≡ format
    → passes format (canonical_name format) ≡ true
unfolding valid_format
canonical_name-passes format valid small = elim (Option-cases (for_extension format)) [
  | inl unknown ↦ absurd (ground (arith, valid, unknown))
  | inr (k, known) ↦
      stem-passes (canonical_stem format) format k (canonical_stem_lem format) known small
]

-- a name answers for one format at most
pub passes_other :
    (format g n : Str) → passes format n ≡ true → str_eq format g ≡ false → passes g n ≡ false
unfolding passes
passes_other format g n p other = elim (Bool-cases (is_visible n)) [
  | inr hidden ↦ rw hidden refl
  | inl shown ↦ elim (Option-cases (servable n)) [
    | inl none_at_all ↦ rw (shown, none_at_all) refl
    | inr (f, serves) ↦
        let here : str_eq f format ≡ true = sym (rw (shown, serves) refl) ∙ p in
        rw (shown, serves)
          (subst (λ x. str_eq x g ≡ false) (sym ((str_eq_iff f format).0 here)) other)
  ]
]
