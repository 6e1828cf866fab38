-- ===== src/Format/Expand/Pieces.antt =====
-- What the expansion of src/format/mod.rs makes of a template, piece by piece.
use rescriptum.Prelude.{
  ℕ, zero, suc, ◌<◌, true, false, List, [], ◌∷◌, ◌++◌, Option, none, some, Str, trim, length, ◌≡◌,
  refl, sym, arith, Bool-cases, Option-cases, inl, inr, ap, ◌∙◌, any, all, is_empty, is_control,
  append_assoc, append-nil, length-append,
}
use mathlib.Core.Path.{subst}
use rescriptum.Prelude.Result.{Result, ok, err, ◌>>=◌}
use rescriptum.Format.Expand.{
  Failure, empty_key, bad_key, missing, unsafe_value, is_key_char, value_of, expand_loop, expand,
}
use rescriptum.Format.Expand.Braces.{has, has-append, loop-end, loop-hole, expand-loop}

-- a stretch of other text, and a placeholder with what stands between its braces
pub data Piece : Type 0 where
  literal hole : Str → Piece

abbrev pub printed : List Piece → Str
printed [] = []
printed (literal s ∷ ps) = s ++ printed ps
printed (hole raw ∷ ps) = b'{' ∷ b'{' ∷ (raw ++ (b'}' ∷ b'}' ∷ printed ps))

-- no brace in a piece that could be taken for those of a placeholder
abbrev pub IsPlain : List Piece → Type 0
IsPlain [] = Unit {0}
IsPlain (literal s ∷ ps) = (has b'{' s ≡ false) × IsPlain ps
IsPlain (hole raw ∷ ps) = (has b'}' raw ≡ false) × IsPlain ps

abbrev pub in_front : Str → Result Failure Str → Result Failure Str
in_front s (ok t) = ok (s ++ t)
in_front s (err e) = err e

abbrev pub IsKey : Str → Type 0
IsKey key = (is_empty key ≡ false) × (all is_key_char key ≡ true)

-- What a template is to become: its placeholders give way to their values, and the first that
-- cannot be filled in decides.
pub data Filled (lookup : Str → Option Str) : List Piece → Result Failure Str → Type 0 where
  finished : Filled lookup [] (ok [])
  copied :
      (s : Str) {ps : List Piece} {r : Result Failure Str}
      → Filled lookup ps r
      → Filled lookup (literal s ∷ ps) (in_front s r)
  filled :
      (raw value : Str) {ps : List Piece} {r : Result Failure Str}
      → IsKey (trim raw)
      → lookup (trim raw) ≡ some value
      → any is_control value ≡ false
      → Filled lookup ps r
      → Filled lookup (hole raw ∷ ps) (in_front value r)
  blank :
      (raw : Str) (ps : List Piece) → trim raw ≡ [] → Filled lookup (hole raw ∷ ps) (err empty_key)
  odd :
      (raw : Str) (ps : List Piece)
      → is_empty (trim raw) ≡ false
      → all is_key_char (trim raw) ≡ false
      → Filled lookup (hole raw ∷ ps) (err (bad_key (trim raw)))
  absent :
      (raw : Str) (ps : List Piece)
      → IsKey (trim raw)
      → lookup (trim raw) ≡ none
      → Filled lookup (hole raw ∷ ps) (err (missing (trim raw)))
  unsafe :
      (raw value : Str) (ps : List Piece)
      → IsKey (trim raw)
      → lookup (trim raw) ≡ some value
      → any is_control value ≡ true
      → Filled lookup (hole raw ∷ ps) (err (unsafe_value (trim raw)))

module _ (lookup : Str → Option Str) where
  -- the tests on a key, one by one
  value-blank : (key : Str) → is_empty key ≡ true → value_of lookup key ≡ err empty_key
  unfolding value_of
  value-blank key h = rw h refl

  value-odd :
      (key : Str)
      → is_empty key ≡ false
      → all is_key_char key ≡ false
      → value_of lookup key ≡ err (bad_key key)
  unfolding value_of
  value-odd key h k = rw (h, k) refl

  value-absent :
      (key : Str) → IsKey key → lookup key ≡ none → value_of lookup key ≡ err (missing key)
  unfolding value_of
  value-absent key (h, k) l = rw (h, k, l) refl

  value-unsafe :
      (key value : Str)
      → IsKey key
      → lookup key ≡ some value
      → any is_control value ≡ true
      → value_of lookup key ≡ err (unsafe_value key)
  unfolding value_of
  value-unsafe key value (h, k) l m = rw (h, k, l, m) refl

  value-known :
      (key value : Str)
      → IsKey key
      → lookup key ≡ some value
      → any is_control value ≡ false
      → value_of lookup key ≡ ok value
  unfolding value_of
  value-known key value (h, k) l m = rw (h, k, l, m) refl

nothing_left : (s : Str) → is_empty s ≡ true → s ≡ []
nothing_left [] h = refl
nothing_left (c ∷ s) h = absurd (ground (arith, h))

in_front-in_front :
    (a b : Str) (r : Result Failure Str) → in_front (a ++ b) r ≡ in_front a (in_front b r)
in_front-in_front a b (ok t) = ap ok (append_assoc a b t)
in_front-in_front a b (err e) = refl

in_front-nil : (r : Result Failure Str) → in_front [] r ≡ r
in_front-nil (ok t) = refl
in_front-nil (err e) = refl

-- what a loop comes to on the rest of a template
abbrev Comes : (Str → Option Str) → List Piece → Str → Result Failure Str → Type 0
Comes lookup ps out result =
    (r : Result Failure Str) × Filled lookup ps r × (result ≡ in_front out r)

-- a placeholder, where the rest of the template is known
hole-Comes :
    (lookup : Str → Option Str) (raw : Str) (ps : List Piece) (out : Str)
    (next : Str → Result Failure Str)
    → ((value : Str) → Comes lookup ps (out ++ value) (next value))
    → Comes lookup (hole raw ∷ ps) out (value_of lookup (trim raw) >>= next)
hole-Comes lookup raw ps out next rest =
    let key = trim raw in
    let then_next : Result Failure Str → Result Failure Str = λ v. v >>= next in
    elim (Bool-cases (is_empty key)) [
      | inl nothing ↦ (
        err empty_key,
        blank raw ps (nothing_left key nothing),
        ap then_next (value-blank lookup key nothing),
      )
      | inr named ↦ elim (Bool-cases (all is_key_char key)) [
        | inr bad ↦
            (err (bad_key key), odd raw ps named bad, ap then_next (value-odd lookup key named bad))
        | inl good ↦ elim (Option-cases (lookup key)) [
          | inl gone ↦ (
            err (missing key),
            absent raw ps (named, good) gone,
            ap then_next (value-absent lookup key (named, good) gone),
          )
          | inr (value, there) ↦ elim (Bool-cases (any is_control value)) [
            | inl control ↦ (
              err (unsafe_value key),
              unsafe raw value ps (named, good) there control,
              ap then_next (value-unsafe lookup key value (named, good) there control),
            )
            | inr safe ↦
                let (r, fills, e) = rest value in
                (
                  in_front value r,
                  filled raw value (named, good) there safe fills,
                  ap then_next (value-known lookup key value (named, good) there safe)
                      ∙ e
                      ∙ in_front-in_front out value r,
                )
          ]
        ]
      ]
    ]

loop-Comes :
    (lookup : Str → Option Str) (ps : List Piece) (fuel : ℕ) (out s : Str)
    → has b'{' s ≡ false
    → IsPlain ps
    → length (s ++ printed ps) < fuel
    → Comes lookup ps (out ++ s) (expand_loop fuel lookup out (s ++ printed ps))
loop-Comes lookup ps zero out s plain plains enough = absurd (omega arith)
loop-Comes lookup [] (suc fuel) out s plain plains enough = (
  ok [],
  finished,
  ap (expand_loop (suc fuel) lookup out) (append-nil s)
      ∙ loop-end lookup fuel out s plain
      ∙ ap ok (sym (append-nil (out ++ s))),
)
loop-Comes lookup (literal t ∷ ps) (suc fuel) out s plain (plain_t, plains) enough =
    let regrouped : s ++ (t ++ printed ps) ≡ (s ++ t) ++ printed ps =
      sym (append_assoc s t (printed ps)) in
    let (r, fills, e) =
      loop-Comes lookup ps (suc fuel) out (s ++ t) (has-append b'{' s t plain plain_t) plains
        (omega (arith, enough, ap length regrouped)) in
    (
      in_front t r,
      copied t fills,
      ap (expand_loop (suc fuel) lookup out) regrouped
          ∙ e
          ∙ ap (λ x. in_front x r) (sym (append_assoc out s t))
          ∙ in_front-in_front (out ++ s) t r,
    )
loop-Comes lookup (hole raw ∷ ps) (suc fuel) out s plain (plain_raw, plains) enough =
    let room : length (printed ps) < fuel = omega (
      arith,
      enough,
      length-append s (b'{' ∷ b'{' ∷ (raw ++ (b'}' ∷ b'}' ∷ printed ps))),
      length-append raw (b'}' ∷ b'}' ∷ printed ps),
    ) in
    let (r, fills, e) =
      hole-Comes lookup raw ps (out ++ s)
        (λ value. expand_loop fuel lookup (out ++ s ++ value) (printed ps))
        (λ value.
          let (q, more, same) = loop-Comes lookup ps fuel (out ++ s ++ value) [] refl plains room in
          (q, more, same ∙ ap (λ x. in_front x q) (append-nil (out ++ s ++ value)))) in
    (r, fills, loop-hole lookup fuel out s raw (printed ps) plain plain_raw ∙ e)

-- A template of text without an opening brace and of placeholders without a closing brace between
-- their own expands to its text with every placeholder replaced by the value of its trimmed key;
-- or to the error of the first placeholder that cannot be filled in: an empty key, a key with
-- other characters than those of keys, a key that has no value, or a value with a control character.
pub expand-Filled :
    (lookup : Str → Option Str) (ps : List Piece)
    → IsPlain ps
    → Filled lookup ps (expand lookup (printed ps))
expand-Filled lookup ps plains =
    let (r, fills, e) =
      loop-Comes lookup ps (suc (length (printed ps))) [] [] refl plains (omega arith) in
    subst (Filled lookup ps) (sym (expand-loop lookup (printed ps) ∙ e ∙ in_front-nil r)) fills
