-- ===== src/Store/File/Matching.antt =====
-- The files of a directory that answer for a format, before and after a file is written or
-- removed.
use rescriptum.Prelude.{
  Bool, true, false, ◌||◌, List, [], ◌∷◌, ◌++◌, map, filter, filter_map, any, Option, none, some,
  Str, if◌then◌else◌, str_eq, str_eq_iff, ◌≡◌, refl, sym, ap, ◌∙◌, arith, Bool-cases, Option-cases,
  inl, inr, append-nil, ◌⊎◌,
}
use mathlib.Core.Path.{subst}
use rescriptum.Store.File.{
  Folder, file, dir, Candidate, candidate_of, is_visible, servable, is_file_named, over, set_file,
  remove_file,
}
use rescriptum.Store.File.Served.{of_format}
use rescriptum.Store.File.Names.{passes}

abbrev pub as_file : Str → Str → Option Str → Candidate
as_file g name text = record { name = name; format = g; text = text }

abbrev pub files : {D : Type 0} → Str → Folder D → List Candidate
files g [] = []
files g ((name, dir _) ∷ d) = files g d
files g ((name, file text) ∷ d) =
    if passes g name then as_file g name text ∷ files g d else files g d

abbrev pub put_text : Str → Option Str → Candidate → Candidate
put_text n text c = if str_eq c.name n then as_file c.format c.name text else c

abbrev pub named : Str → Candidate → Bool
named n c = str_eq c.name n

abbrev with_first : Option Candidate → List Candidate → List Candidate
with_first o rest = elim o [ none ↦ rest | some c ↦ c ∷ rest ]

unseen : (D : Type 0) (name : Str) (x : D) → candidate_of {D = D} (name, dir x) ≡ none
unfolding candidate_of
unseen D name x = refl

seen :
    (D : Type 0) (g name : Str) (text : Option Str)
    → ((candidate_of {D = D} (name, file text) ≡ none) × (passes g name ≡ false))
      ⊎ ((format : Str) × (candidate_of {D = D} (name, file text) ≡ some (as_file format name text))
          × (passes g name ≡ str_eq format g))
unfolding candidate_of passes
seen D g name text = elim (Bool-cases (is_visible name)) [
  | inr hidden ↦ inl (rw (hidden, candidate_of) refl, rw hidden refl)
  | inl shown ↦ elim (Option-cases (servable name)) [
    | inl other ↦ inl (rw (shown, other, candidate_of) refl, rw (shown, other) refl)
    | inr (format, serves) ↦
        inr (format, rw (shown, serves, candidate_of) refl, rw (shown, serves) refl)
  ]
]

module _ {D : Type 0} (g : Str) where
  -- the tests of the code, in the code's order
  pub filter-candidates :
      (d : Folder D) → filter (of_format g) (filter_map candidate_of d) ≡ files g d
  filter-candidates [] = refl
  filter-candidates ((name, dir x) ∷ d) =
      ap (λ o. filter (of_format g) (with_first o (filter_map candidate_of d))) (unseen D name x)
      ∙ filter-candidates d
  filter-candidates ((name, file text) ∷ d) = elim (seen D g name text) [
    | inl (passed_over, out) ↦
        ap (λ o. filter (of_format g) (with_first o (filter_map candidate_of d))) passed_over
        ∙ filter-candidates d
        ∙ ap (λ b. if b then as_file g name text ∷ files g d else files g d) (sym out)
    | inr (format, taken, test) ↦
        ap (λ o. filter (of_format g) (with_first o (filter_map candidate_of d))) taken
        ∙ elim (Bool-cases (str_eq format g)) [
          | inr different ↦ rw test (rw different (filter-candidates d))
          | inl same ↦ rw test (
              rw same (
                ap (λ f. as_file f name text ∷ filter (of_format g) (filter_map candidate_of d))
                  ((str_eq_iff format g).0 same)
                ∙ ap (λ cs. as_file g name text ∷ cs) (filter-candidates d)))
        ]
  ]

  -- a file whose name does not answer for the format
  files-over_out :
      (n : Str) (text : Option Str) (d : Folder D)
      → passes g n ≡ false
      → files g (map (over n text) d) ≡ files g d
  files-over_out n text [] h = refl
  files-over_out n text ((name, dir _) ∷ d) h = files-over_out n text d h
  files-over_out n text ((name, file old) ∷ d) h = elim (Bool-cases (str_eq name n)) [
    | inr other ↦ rw other (
        ap (λ cs. if passes g name then as_file g name old ∷ cs else cs)
          (files-over_out n text d h))
    | inl same ↦
        let out : passes g name ≡ false =
          subst (λ m. passes g m ≡ false) (sym ((str_eq_iff name n).0 same)) h in
        rw same (rw out (files-over_out n text d h))
  ]

  files-append :
      (d : Folder D) (n : Str) (text : Option Str)
      → files g (d ++ ((n, file text) ∷ []))
        ≡ files g d ++ (if passes g n then as_file g n text ∷ [] else [])
  files-append [] n text = refl
  files-append ((name, dir _) ∷ d) n text = files-append d n text
  files-append ((name, file old) ∷ d) n text = elim (Bool-cases (passes g name)) [
    | inl kept ↦ rw kept (ap (λ cs. as_file g name old ∷ cs) (files-append d n text))
    | inr dropped ↦ rw dropped (files-append d n text)
  ]

  pub files-set_file_out :
      (n : Str) (text : Option Str) (d : Folder D)
      → passes g n ≡ false
      → files g (set_file n text d) ≡ files g d
  files-set_file_out n text d h = elim (Bool-cases (any (is_file_named n) d)) [
    | inl there ↦ rw there (files-over_out n text d h)
    | inr absent ↦ rw absent (
        files-append d n text
        ∙ ap (λ b. files g d ++ (if b then as_file g n text ∷ [] else [])) h
        ∙ append-nil (files g d))
  ]

  pub files-remove_file_out :
      (n : Str) (d : Folder D) → passes g n ≡ false → files g (remove_file n d) ≡ files g d
  files-remove_file_out n [] h = refl
  files-remove_file_out n ((name, dir _) ∷ d) h = files-remove_file_out n d h
  files-remove_file_out n ((name, file old) ∷ d) h = elim (Bool-cases (str_eq name n)) [
    | inr other ↦ rw other (
        ap (λ cs. if passes g name then as_file g name old ∷ cs else cs)
          (files-remove_file_out n d h))
    | inl same ↦
        let out : passes g name ≡ false =
          subst (λ m. passes g m ≡ false) (sym ((str_eq_iff name n).0 same)) h in
        rw same (rw out (files-remove_file_out n d h))
  ]

  -- one whose name does
  files-over_in :
      (n : Str) (text : Option Str) (d : Folder D)
      → passes g n ≡ true
      → files g (map (over n text) d) ≡ map (put_text n text) (files g d)
  files-over_in n text [] h = refl
  files-over_in n text ((name, dir _) ∷ d) h = files-over_in n text d h
  files-over_in n text ((name, file old) ∷ d) h = elim (Bool-cases (str_eq name n)) [
    | inl same ↦
        let kept : passes g name ≡ true =
          subst (λ m. passes g m ≡ true) (sym ((str_eq_iff name n).0 same)) h in
        rw (same, kept) (rw same (ap (λ cs. as_file g name text ∷ cs) (files-over_in n text d h)))
    | inr other ↦ elim (Bool-cases (passes g name)) [
      | inl kept ↦
          rw (other, kept)
            (rw other (ap (λ cs. as_file g name old ∷ cs) (files-over_in n text d h)))
      | inr dropped ↦ rw (other, dropped) (files-over_in n text d h)
    ]
  ]

  any-files :
      (n : Str) (d : Folder D)
      → passes g n ≡ true
      → any (is_file_named n) d ≡ any (named n) (files g d)
  any-files n [] h = refl
  any-files n ((name, dir _) ∷ d) h = any-files n d h
  any-files n ((name, file old) ∷ d) h = elim (Bool-cases (passes g name)) [
    | inl kept ↦ rw kept (ap (λ b. str_eq name n || b) (any-files n d h))
    | inr dropped ↦ elim (Bool-cases (str_eq name n)) [
      | inr other ↦ rw (dropped, other) (any-files n d h)
      | inl same ↦
          let kept : passes g name ≡ true =
            subst (λ m. passes g m ≡ true) (sym ((str_eq_iff name n).0 same)) h in
          absurd (ground arith)
    ]
  ]

  pub named-passes : (n : Str) (d : Folder D) → any (named n) (files g d) ≡ true → passes g n ≡ true
  named-passes n [] h = absurd (ground arith)
  named-passes n ((name, dir _) ∷ d) h = named-passes n d h
  named-passes n ((name, file old) ∷ d) h = elim (Bool-cases (passes g name)) [
    | inr dropped ↦ named-passes n d (
        subst (λ b. any (named n) (if b then as_file g name old ∷ files g d else files g d) ≡ true)
          dropped h)
    | inl kept ↦ elim (Bool-cases (str_eq name n)) [
      | inl same ↦ subst (λ m. passes g m ≡ true) ((str_eq_iff name n).0 same) kept
      | inr other ↦
          let shown =
            subst
              (λ b. any (named n) (if b then as_file g name old ∷ files g d else files g d) ≡ true)
              kept h in
          named-passes n d (ground (arith, shown))
    ]
  ]

  pub files-set_file_in :
      (n : Str) (text : Option Str) (d : Folder D)
      → passes g n ≡ true
      → files g (set_file n text d) ≡ (
          if any (named n) (files g d)
          then map (put_text n text) (files g d)
          else files g d ++ (as_file g n text ∷ []))
  files-set_file_in n text d h = elim (Bool-cases (any (is_file_named n) d)) [
    | inl there ↦ rw (there, sym (any-files n d h) ∙ there) (files-over_in n text d h)
    | inr absent ↦
        rw (absent, sym (any-files n d h) ∙ absent)
          (files-append d n text
            ∙ ap (λ b. files g d ++ (if b then as_file g n text ∷ [] else [])) h)
  ]
