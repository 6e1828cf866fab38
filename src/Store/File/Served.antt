-- ===== src/Store/File/Served.antt =====
-- Which document of a directory answers for a format.
use rescriptum.Prelude.{
  Bool, true, false, List, [], ◌∷◌, ◌++◌, filter, filter_map, find, Option, none, some, Str,
  if◌then◌else◌, str_eq, str_ltb, str_eq_iff, ◌≡◌, refl, sym, ap, ◌∙◌, Bool-cases, Option-cases,
  inl, inr,
}
use rescriptum.Prelude.Order.{str_ltb_asym, str_ltb_negative}
use rescriptum.Store.File.{Folder, Candidate, Found, by_name, candidate_of, collect, documents_in}
use rescriptum.Store.File.Sorted.{filter-sort_by}
use mathlib.Core.Path.{subst}

abbrev pub first_readable : List Candidate → Option Str
first_readable [] = none
first_readable (c ∷ cs) = elim c.text [ none ↦ first_readable cs | some body ↦ some body ]

abbrev pub of_format : Str → Candidate → Bool
of_format g c = str_eq c.format g

abbrev pub has_format : Str → Found → Bool
has_format g f = str_eq f.format g

abbrev pub body_of : Option Found → Option Str
body_of none = none
body_of (some f) = some f.body

-- the text that a directory serves in a format
unfoldable pub served : {D : Type 0} → Folder D → Str → Option Str
unfolding documents_in
served d g = body_of (find (has_format g) (documents_in d).0)

abbrev pub or_else : {A : Type 0} → Option A → Option A → Option A
or_else none b = b
or_else (some a) b = some a

find-append :
    {A : Type 0} (p : A → Bool) (xs : List A) (x : A)
    → find p (xs ++ (x ∷ [])) ≡ or_else (find p xs) (if p x then some x else none)
find-append p [] x = refl
find-append p (y ∷ xs) x = elim (Bool-cases (p y)) [
  | inl kept ↦ rw kept refl
  | inr dropped ↦ rw dropped (find-append p xs x)
]

-- the candidates of the format, where none of it has been found yet
abbrev behind : Str → List Found → List Candidate → Option Str
behind g found cs =
    or_else (body_of (find (has_format g) found)) (first_readable (filter (of_format g) cs))

-- a candidate of a format that is answered for counts for nothing, nor does an unreadable one
or_none :
    (g : Str) (found : List Found) (cs : List Candidate)
    → or_else
        (body_of (or_else (find (has_format g) found) none))
        (first_readable (filter (of_format g) cs))
      ≡ behind g found cs
or_none g found cs = elim (Option-cases (find (has_format g) found)) [
  | inl missing ↦ rw missing refl
  | inr (f, there) ↦ rw there refl
]

passed_over :
    (g : Str) (found : List Found) (c : Candidate) (cs : List Candidate) (first : Found)
    → find (has_format c.format) found ≡ some first
    → behind g found (c ∷ cs) ≡ behind g found cs
passed_over g found c cs first there = elim (Bool-cases (of_format g c)) [
  | inr other ↦ rw other refl
  | inl same ↦
      let at_g : find (has_format g) found ≡ some first =
        subst (λ f. find (has_format f) found ≡ some first) ((str_eq_iff c.format g).0 same)
          there in
      rw at_g refl
]

garbled_over :
    (g : Str) (found : List Found) (c : Candidate) (cs : List Candidate)
    → c.text ≡ none
    → behind g found (c ∷ cs) ≡ behind g found cs
garbled_over g found c cs garbled = elim (Bool-cases (of_format g c)) [
  | inr other ↦ rw other refl
  | inl same ↦ rw same (rw garbled refl)
]

abbrev found_of : Candidate → Str → Found
found_of c body = record { format = c.format; body = body; name = c.name }

-- a readable one of a new format is found, and hides the later ones
taken_in :
    (g : Str) (found : List Found) (c : Candidate) (cs : List Candidate) (body : Str)
    → find (has_format c.format) found ≡ none
    → c.text ≡ some body
    → behind g (found ++ (found_of c body ∷ [])) cs ≡ behind g found (c ∷ cs)
taken_in g found c cs body missing read =
    ap (λ o. or_else (body_of o) (first_readable (filter (of_format g) cs)))
      (find-append (has_format g) found (found_of c body))
    ∙ elim (Bool-cases (of_format g c)) [
      | inr other ↦ rw other (or_none g found cs)
      | inl same ↦
          let at_g : find (has_format g) found ≡ none =
            subst (λ f. find (has_format f) found ≡ none) ((str_eq_iff c.format g).0 same)
              missing in
          rw (same, at_g) (rw read refl)
    ]

collect_garbled :
    (found : List Found) (c : Candidate) (cs : List Candidate)
    → find (has_format c.format) found ≡ none
    → c.text ≡ none
    → (collect found (c ∷ cs)).0 ≡ (collect found cs).0
unfolding collect
collect_garbled found c cs missing garbled = rw (missing, garbled, collect) refl

collect_read :
    (found : List Found) (c : Candidate) (cs : List Candidate) (body : Str)
    → find (has_format c.format) found ≡ none
    → c.text ≡ some body
    → (collect found (c ∷ cs)).0 ≡ (collect (found ++ (found_of c body ∷ [])) cs).0
unfolding collect
collect_read found c cs body missing read = rw (missing, read, collect) refl

collect-first :
    (g : Str) (found : List Found) (cs : List Candidate)
    → body_of (find (has_format g) (collect found cs).0) ≡ behind g found cs
unfolding collect
collect-first g found [] = elim (Option-cases (find (has_format g) found)) [
  | inl missing ↦ rw missing refl
  | inr (f, there) ↦ rw there refl
]
collect-first g found (c ∷ cs) = elim (Option-cases (find (has_format c.format) found)) [
  | inr (first, there) ↦
      rw (there, collect) (collect-first g found cs ∙ sym (passed_over g found c cs first there))
  | inl missing ↦ elim (Option-cases c.text) [
    | inl garbled ↦
        ap (λ found'. body_of (find (has_format g) found'))
          (collect_garbled found c cs missing garbled)
        ∙ collect-first g found cs
        ∙ sym (garbled_over g found c cs garbled)
    | inr (body, read) ↦
        ap (λ found'. body_of (find (has_format g) found'))
          (collect_read found c cs body missing read)
        ∙ collect-first g (found ++ (found_of c body ∷ [])) cs
        ∙ taken_in g found c cs body missing read
  ]
]

candidate_asym : (a b : Candidate) → str_ltb a.name b.name ≡ true → str_ltb b.name a.name ≡ false
candidate_asym a b = str_ltb_asym a.name b.name

-- what is served is the first text that can be read among the files of the format
pub served-first_readable :
    {D : Type 0} (d : Folder D) (g : Str)
    → served d g ≡ first_readable (by_name (filter (of_format g) (filter_map candidate_of d)))
unfolding served documents_in
served-first_readable d g =
    collect-first g [] (by_name (filter_map candidate_of d))
    ∙ ap first_readable (
        filter-sort_by (λ a b. str_ltb a.name b.name) candidate_asym
          (λ a b c. str_ltb_negative a.name b.name c.name) (of_format g)
          (filter_map candidate_of d))
