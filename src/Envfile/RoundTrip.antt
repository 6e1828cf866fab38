-- ===== src/Envfile/RoundTrip.antt =====
-- A setting that src/envfile.rs writes is read back.
use rescriptum.Prelude.{
  ℕ, Bool, true, false, not, ◌&&◌, ◌||◌, [], ◌∷◌, ◌++◌, none, some, Str, ◌==◌, codes, if◌then◌else◌,
  str_eq, str_eq_iff, any, all, is_empty, is_control, is_whitespace, is_ascii_alphanumeric, trim,
  trim_start, trim_end_matches, strip_prefix, split_once, last_or, ◌≡◌, refl, sym, ap, ◌∙◌, arith,
  Bool-cases, inl, inr,
}
use mathlib.Core.Path.{subst}
use rescriptum.Prelude.Result.{Result, ok, err}
use rescriptum.Envfile.Parse.{
  Vars, get, is_valid_key, looks_quoted, init, inner, unquote, without_export, is_comment, assign,
  parse_line, ParseError,
}
use rescriptum.Envfile.Rewrite.{control_character, quoted_value, needs_both, render_value}

abbrev trim_end : Str → Str
trim_end = trim_end_matches is_whitespace

some_left : (xs : Str) (c : ℕ) (r : Str) → is_empty (xs ++ (c ∷ r)) ≡ false
some_left [] c r = refl
some_left (x ∷ xs) c r = refl

never : (b : Bool) (s : Str) → (if b && false then [] else s) ≡ s
never true s = refl
never false s = refl

trim_end-append :
    (xs : Str) (c : ℕ) (r : Str)
    → is_whitespace c ≡ false
    → trim_end r ≡ r
    → trim_end (xs ++ (c ∷ r)) ≡ xs ++ (c ∷ r)
trim_end-append [] c r h e = rw (e, h) refl
trim_end-append (x ∷ xs) c r h e =
    let rest = trim_end-append xs c r h e in
    ap (λ t. if is_whitespace x && is_empty t then [] else x ∷ t) rest
    ∙ ap (λ b. if is_whitespace x && b then [] else x ∷ (xs ++ (c ∷ r))) (some_left xs c r)
    ∙ never (is_whitespace x) (x ∷ (xs ++ (c ∷ r)))

trim_end-trim_end : (s : Str) → trim_end (trim_end s) ≡ trim_end s
trim_end-trim_end [] = refl
trim_end-trim_end (c ∷ s) = elim (Bool-cases (is_whitespace c && is_empty (trim_end s))) [
  | inl gone ↦ rw gone refl
  | inr stays ↦ rw stays (rw (trim_end-trim_end s) (rw stays refl))
]

last_or-snoc : (d : ℕ) (xs : Str) (c : ℕ) → last_or d (xs ++ (c ∷ [])) ≡ c
last_or-snoc d [] c = refl
last_or-snoc d (x ∷ xs) c = last_or-snoc x xs c

init-snoc : (xs : Str) (c : ℕ) → init (xs ++ (c ∷ [])) ≡ xs
init-snoc [] c = refl
init-snoc (x ∷ []) c = refl
init-snoc (x ∷ y ∷ xs) c = ap (λ t. x ∷ t) (init-snoc (y ∷ xs) c)

abbrev in_quotes : Str → Str
in_quotes v = b'"' ∷ (v ++ (b'"' ∷ []))

looks_quoted-in_quotes : (v : Str) → looks_quoted (in_quotes v) ≡ true
looks_quoted-in_quotes [] = refl
looks_quoted-in_quotes (c ∷ v) = ap (λ l. b'"' == l) (last_or-snoc c v (b'"'))

unquote-in_quotes : (v : Str) → unquote (in_quotes v) ≡ v
unfolding unquote
unquote-in_quotes v =
    ap (λ b. if b then inner (in_quotes v) else in_quotes v) (looks_quoted-in_quotes v)
    ∙ init-snoc v (b'"')

plain-unquote : (v : Str) → looks_quoted v ≡ false → unquote v ≡ v
unfolding unquote
plain-unquote v h = ap (λ b. if b then inner v else v) h

-- what is rendered stands on a line by itself and gives the value back
record IsRendering (value rendered : Str) : Type 0 where
  pub ended : trim_end rendered ≡ rendered
  pub trimmed : trim rendered ≡ rendered
  pub value_of : unquote rendered ≡ value

ended_too : (v : Str) → v ≡ trim v → trim_end v ≡ v
ended_too v e = ap trim_end e ∙ trim_end-trim_end (trim_start v) ∙ sym e

render_value-IsRendering :
    (key value rendered : Str) → render_value key value ≡ ok rendered → IsRendering value rendered
unfolding render_value
render_value-IsRendering key value rendered h = elim (Bool-cases (any is_control value)) [
  | inl control ↦
      let e : ok rendered ≡ err (control_character key) = sym h ∙ rw (control, render_value) refl in
      cc
  | inr clean ↦ elim (Bool-cases (looks_quoted value)) [
    | inl quoted ↦
        let e : ok rendered ≡ err (quoted_value key) =
          sym h ∙ rw (clean, quoted, render_value) refl in
        cc
    | inr bare ↦ elim (Bool-cases (str_eq value (trim value))) [
      | inl tight ↦
          let e : ok rendered ≡ ok value = sym h ∙ rw (clean, bare, tight, render_value) refl in
          let same : value ≡ rendered = cc in
          let fixed : value ≡ trim value = (str_eq_iff value (trim value)).0 tight in
          subst (IsRendering value) same (record {
            ended = ended_too value fixed;
            trimmed = sym fixed;
            value_of = plain-unquote value bare;
          })
      | inr loose ↦ elim (Bool-cases (any (λ c. c == b'"') value)) [
        | inl both ↦
            let e : ok rendered ≡ err (needs_both key) =
              sym h ∙ rw (clean, bare, loose, both, render_value) refl in
            cc
        | inr free ↦
            let e : ok rendered ≡ ok (in_quotes value) =
              sym h ∙ rw (clean, bare, loose, free, render_value) refl in
            let same : in_quotes value ≡ rendered = cc in
            let fixed = trim_end-append (b'"' ∷ value) (b'"') [] refl refl in
            subst (IsRendering value) same
              (record { ended = fixed; trimmed = fixed; value_of = unquote-in_quotes value })
      ]
    ]
  ]
]

-- the line of a setting
abbrev is_key_char : ℕ → Bool
is_key_char d = is_ascii_alphanumeric d || d == b'_'

abbrev pub setting : Str → Str → Str
setting key rendered = key ++ (b'=' ∷ rendered)

split-setting :
    (key r : Str)
    → all is_key_char key ≡ true
    → split_once (λ c. c == b'=') (setting key r) ≡ some (key, r)
split-setting [] r h = refl
split-setting (c ∷ key) r h =
    let plain : (c == b'=') ≡ false = ground (arith, h) in
    rw plain (rw (split-setting key r (ground arith)) refl)

-- a prefix with a character that no key has, and without `=`
no_prefix :
    (p key r : Str)
    → all (λ c. not (c == b'=')) p ≡ true
    → any (λ c. not (is_key_char c)) p ≡ true
    → all is_key_char key ≡ true
    → strip_prefix p (setting key r) ≡ none
no_prefix [] key r a b h = absurd (ground arith)
no_prefix (q ∷ p) [] r a b h = let apart : (q == b'=') ≡ false = ground arith in rw apart refl
no_prefix (q ∷ p) (c ∷ key) r a b h = elim (Bool-cases (q == c)) [
  | inr apart ↦ rw apart refl
  | inl same ↦ rw same (no_prefix p key r (ground arith) (ground arith) (ground arith))
]

valid-chars : (key : Str) → is_valid_key key ≡ true → all is_key_char key ≡ true
unfolding is_valid_key
valid-chars [] h = refl
valid-chars (c ∷ key) h = ground (arith, h)

key_char_plain : (c : ℕ) → is_key_char c ≡ true → is_whitespace c ≡ false
key_char_plain c h = ground (arith, h)

trim_end-key : (key : Str) → all is_key_char key ≡ true → trim_end key ≡ key
trim_end-key [] h = refl
trim_end-key (c ∷ key) h =
    let plain : is_whitespace c ≡ false = key_char_plain c (ground (arith, h)) in
    rw plain (ap (λ t. c ∷ t) (trim_end-key key (ground (arith, h))))

trim-key : (key : Str) → all is_key_char key ≡ true → trim key ≡ key
trim-key [] h = refl
trim-key (c ∷ key) h =
    let plain : is_whitespace c ≡ false = key_char_plain c (ground (arith, h)) in
    ap (λ b. trim_end (if b then trim_start key else c ∷ key)) plain ∙ trim_end-key (c ∷ key) h

trim-setting :
    (c : ℕ) (key r : Str)
    → all is_key_char (c ∷ key) ≡ true
    → trim_end r ≡ r
    → trim (setting (c ∷ key) r) ≡ setting (c ∷ key) r
trim-setting c key r h e =
    let plain : is_whitespace c ≡ false = key_char_plain c (ground (arith, h)) in
    ap (λ b. trim_end (if b then trim_start (setting key r) else setting (c ∷ key) r)) plain
    ∙ trim_end-append (c ∷ key) (b'=') r refl e

whole-setting :
    (key r : Str) → all is_key_char key ≡ true → without_export (setting key r) ≡ setting key r
whole-setting key r h = rw (no_prefix (codes "export ") key r refl refl h, without_export) refl

assigned :
    (n : ℕ) (vars : Vars) (line key value rendered : Str)
    → is_valid_key key ≡ true
    → get key vars ≡ none
    → all is_key_char key ≡ true
    → IsRendering value rendered
    → assign n vars line (some (key, rendered)) ≡ ok (vars ++ (key, value) ∷ [])
assigned n vars line key value rendered valid unset chars r =
    rw (trim-key key chars, r.trimmed, assign) (rw (valid, unset, r.value_of) refl)

nameless : is_valid_key [] ≡ true → ⊥
unfolding is_valid_key
nameless e = cc

abbrev read_line : ℕ → Vars → Str → Result ParseError Vars
read_line n vars line =
    if is_comment line
    then ok vars
    else assign n vars (without_export line) (split_once (λ c. c == b'=') (without_export line))

-- A setting of a valid name that is not set yet: the line that is written for a value that can be
-- rendered is read back as that value.
pub parse_line-render_value :
    (n : ℕ) (vars : Vars) (key value rendered : Str)
    → is_valid_key key ≡ true
    → get key vars ≡ none
    → render_value key value ≡ ok rendered
    → parse_line n vars (setting key rendered) ≡ ok (vars ++ (key, value) ∷ [])
unfolding parse_line
parse_line-render_value n vars [] value rendered valid unset h = absurd (nameless valid)
parse_line-render_value n vars (c ∷ key) value rendered valid unset h =
    let r = render_value-IsRendering (c ∷ key) value rendered h in
    let chars = valid-chars (c ∷ key) valid in
    let line = setting (c ∷ key) rendered in
    let no_comment : (c == b'#') ≡ false = ground (arith, chars) in
    ap (read_line n vars) (trim-setting c key rendered chars r.ended)
    ∙ ap
        (λ b.
          if b
          then ok vars
          else assign n vars (without_export line)
              (split_once (λ c. c == b'=') (without_export line)))
        no_comment
    ∙ ap (λ rest. assign n vars rest (split_once (λ c. c == b'=') rest))
        (whole-setting (c ∷ key) rendered chars)
    ∙ ap (assign n vars line) (split-setting (c ∷ key) rendered chars)
    ∙ assigned n vars line (c ∷ key) value rendered valid unset chars r
