-- ===== src/Store/File/Put.antt =====
-- Writing a document is an update of what the directory serves, or changes nothing that is served.
use rescriptum.Prelude.{
  ℕ, Bool, true, false, ◌&&◌, List, [], ◌∷◌, ◌++◌, map, any, Option, none, some, Str, if◌then◌else◌,
  str_eq, str_eq_iff, str_eq_self, str_ltb, to_ascii_lowercase, ◌≡◌, refl, sym, ap, ◌∙◌, arith,
  Bool-cases, Option-cases, inl, inr,
}
use mathlib.Core.Path.{subst}
use rescriptum.Prelude.Result.{Result, ok, err}
use rescriptum.Admin.Write.{valid_format}
use rescriptum.Select.Build.Groups.{place}
use rescriptum.Store.File.{
  Folder, Candidate, Fault, no_fault, mkdir_fails, preserve_fails, rename_fails, remove_fails,
  sweep_fails, abandon, write_fails, by_name, first_name, existing, target, put_in, write_atomic,
  attempt, moved, set_file, remove_file, is_dir_named, with_extension, tmp_extension,
  canonical_name,
}
use rescriptum.Store.File.Sorted.{any-sort_by, map-sort_by}
use rescriptum.Store.File.Served.{served, first_readable, served-first_readable}
use rescriptum.Store.File.Names.{passes, passes_other, tmp-passes, canonical_name-passes}
use rescriptum.Store.File.Matching.{
  files, filter-candidates, put_text, named, as_file, files-set_file_out, files-remove_file_out,
  named-passes, files-set_file_in,
}

by_name_lt : Candidate → Candidate → Bool
by_name_lt a b = str_ltb a.name b.name

pub served-files :
    {D : Type 0} (d : Folder D) (g : Str) → served d g ≡ first_readable (by_name (files g d))
served-files d g =
    served-first_readable d g ∙ ap (λ cs. first_readable (by_name cs)) (filter-candidates g d)

pub existing-files :
    {D : Type 0} (d : Folder D) (g : Str) → existing d g ≡ first_name (by_name (files g d))
unfolding existing
existing-files d g = ap (λ cs. first_name (by_name cs)) (filter-candidates g d)

put_text-name : (n : Str) (text : Option Str) (c : Candidate) → (put_text n text c).name ≡ c.name
put_text-name n text c = elim (Bool-cases (str_eq c.name n)) [
  | inl same ↦ ap (λ b. (if b then as_file c.format c.name text else c).name) same
  | inr other ↦ ap (λ b. (if b then as_file c.format c.name text else c).name) other
]

by_name-put_text :
    (n : Str) (text : Option Str) (cs : List Candidate)
    → by_name (map (put_text n text) cs) ≡ map (put_text n text) (by_name cs)
by_name-put_text n text cs = sym (
    map-sort_by (λ a b. str_ltb a.name b.name) (put_text n text)
      (λ a b.
        ap (λ x. str_ltb x (put_text n text b).name) (put_text-name n text a)
        ∙ ap (str_ltb a.name) (put_text-name n text b))
      cs)

first-put_text :
    (n body : Str) (cs : List Candidate)
    → first_name cs ≡ some n
    → first_readable (map (put_text n (some body)) cs) ≡ some body
first-put_text n body [] h = cc
first-put_text n body (c ∷ cs) h =
    let same : c.name ≡ n = cc in
    let test : str_eq c.name n ≡ true =
      subst (λ m. str_eq c.name m ≡ true) same (str_eq_self c.name) in
    ap
      (λ b.
        first_readable (
          (if b then as_file c.format c.name (some body) else c) ∷ map (put_text n (some body)) cs))
      test

pub first-named : (n : Str) (cs : List Candidate) → first_name cs ≡ some n → any (named n) cs ≡ true
first-named n [] h = cc
first-named n (c ∷ cs) h =
    let same : c.name ≡ n = cc in
    let test : str_eq c.name n ≡ true =
      subst (λ m. str_eq c.name m ≡ true) same (str_eq_self c.name) in
    ground (arith, test)

placed_some :
    (c : Candidate) (cs : List Candidate)
    → first_name (place (λ a b. str_ltb a.name b.name) c cs) ≡ none
    → ⊥
placed_some c [] h = cc
placed_some c (d ∷ cs) h = elim (Bool-cases (str_ltb d.name c.name)) [
  | inl before ↦
      let e =
        subst
          (λ b.
            first_name (if b then d ∷ place (λ a b. str_ltb a.name b.name) c cs else c ∷ d ∷ cs)
            ≡ none)
          before h in
      cc
  | inr behind ↦
      let e =
        subst
          (λ b.
            first_name (if b then d ∷ place (λ a b. str_ltb a.name b.name) c cs else c ∷ d ∷ cs)
            ≡ none)
          behind h in
      cc
]

pub no_first : (cs : List Candidate) → first_name (by_name cs) ≡ none → cs ≡ []
no_first [] h = refl
no_first (c ∷ cs) h = absurd (placed_some c (by_name cs) h)

target_absent :
    {D : Type 0} (d : Folder D) (format : Str)
    → existing d format ≡ none
    → target d format ≡ canonical_name format
unfolding target
target_absent d format absent = rw (absent, target) refl

pub target_there :
    {D : Type 0} (d : Folder D) (format n : Str) → existing d format ≡ some n → target d format ≡ n
unfolding target
target_there d format n there = rw (there, target) refl

pub named_there :
    {D : Type 0} (d : Folder D) (g n : Str)
    → existing d g ≡ some n
    → any (named n) (files g d) ≡ true
named_there d g n there =
    sym (any-sort_by (λ a b. str_ltb a.name b.name) (named n) (files g d))
    ∙ first-named n (by_name (files g d)) (sym (existing-files d g) ∙ there)

-- where the document is written answers for the format
pub target-passes :
    {D : Type 0} (d : Folder D) (format : Str)
    → valid_format format ≡ true
    → to_ascii_lowercase format ≡ format
    → passes format (target d format) ≡ true
target-passes d format valid small = elim (Option-cases (existing d format)) [
  | inl absent ↦
      ap (passes format) (target_absent d format absent) ∙ canonical_name-passes format valid small
  | inr (n, there) ↦
      ap (passes format) (target_there d format n there)
      ∙ named-passes format n d (named_there d format n there)
]

-- a file set over the first of a format, or as its only one
served-set_file :
    {D : Type 0} (d before : Folder D) (g body : Str)
    → files g d ≡ files g before
    → passes g (target before g) ≡ true
    → served (set_file (target before g) (some body) d) g ≡ some body
served-set_file d before g body same p =
    let n = target before g in
    let written : List Candidate → List Candidate = λ cs.
      if any (named n) cs
      then map (put_text n (some body)) cs
      else cs ++ (as_file g n (some body) ∷ []) in
    let start : served (set_file n (some body) d) g
        ≡ first_readable (by_name (written (files g before))) =
      served-files (set_file n (some body) d) g
      ∙ ap (λ cs. first_readable (by_name cs))
          (files-set_file_in g n (some body) d p ∙ ap written same) in
    start ∙ elim (Option-cases (existing before g)) [
      | inl absent ↦
          ap (λ cs. first_readable (by_name (written cs)))
            (no_first (files g before) (sym (existing-files before g) ∙ absent))
      | inr (m, there) ↦
          let at : m ≡ n = sym (target_there before g m there) in
          let in_files : any (named n) (files g before) ≡ true =
            subst (λ x. any (named x) (files g before) ≡ true) at (named_there before g m there) in
          ap
            (λ b. first_readable (
              by_name (
                if b
                then map (put_text n (some body)) (files g before)
                else files g before ++ (as_file g n (some body) ∷ []))))
            in_files
          ∙ ap first_readable (by_name-put_text n (some body) (files g before))
          ∙ first-put_text n body (by_name (files g before))
              (sym (existing-files before g) ∙ there ∙ ap some at)
    ]

pub served_same :
    {D : Type 0} (d before : Folder D) (g : Str)
    → files g d ≡ files g before
    → served d g ≡ served before g
served_same d before g same =
    served-files d g ∙ ap (λ cs. first_readable (by_name cs)) same ∙ sym (served-files before g)

abbrev pub is_ok : {E A : Type 0} → Result E A → Bool
is_ok (ok _) = true
is_ok (err _) = false

-- what is served once a document of a format is written, or the write fails
abbrev pub updated : Bool → Str → Str → Option Str → Str → Option Str
updated done format body old g = if done && str_eq format g then some body else old

pub files-undone :
    {D : Type 0} (tmp body : Str) (d : Folder D) (g : Str)
    → passes g tmp ≡ false
    → files g (remove_file tmp (set_file tmp (some body) d)) ≡ files g d
files-undone tmp body d g unseen =
    files-remove_file_out g tmp (set_file tmp (some body) d) unseen
    ∙ files-set_file_out g tmp (some body) d unseen

pub files-abandon :
    {D : Type 0} (stays : Bool) (tmp body : Str) (d : Folder D) (g : Str)
    → passes g tmp ≡ false
    → files g (abandon stays tmp (set_file tmp (some body) d)) ≡ files g d
files-abandon true tmp body d g unseen = files-set_file_out g tmp (some body) d unseen
files-abandon false tmp body d g unseen = files-undone tmp body d g unseen

served-moved :
    {D : Type 0} (tmp body : Str) (d : Folder D) (format g : Str)
    → ((g : Str) → passes g tmp ≡ false)
    → passes format (target d format) ≡ true
    → served (moved tmp (target d format) body (set_file tmp (some body) d)).0 g
      ≡ updated
          (is_ok (moved tmp (target d format) body (set_file tmp (some body) d)).1)
          format
          body
          (served d g)
          g
served-moved tmp body d format g unseen p =
    let back = remove_file tmp (set_file tmp (some body) d) in
    elim (Bool-cases (any (is_dir_named (target d format)) (set_file tmp (some body) d))) [
      | inl blocked ↦ rw blocked (served_same back d g (files-undone tmp body d g (unseen g)))
      | inr free ↦ elim (Bool-cases (str_eq format g)) [
        | inl same ↦
            rw (free, same)
              (subst (λ f. served (set_file (target d format) (some body) back) f ≡ some body)
                ((str_eq_iff format g).0 same)
                (served-set_file back d format body (files-undone tmp body d format (unseen format))
                  p))
        | inr other ↦
            rw (free, other)
              (served_same (set_file (target d format) (some body) back) d g (
                files-set_file_out g (target d format) (some body) back
                  (passes_other format g (target d format) p other)
                ∙ files-undone tmp body d g (unseen g)))
      ]
    ]

served-attempt :
    {D : Type 0} (fault : Fault) (tmp body : Str) (d : Folder D) (format g : Str)
    → ((g : Str) → passes g tmp ≡ false)
    → passes format (target d format) ≡ true
    → served (attempt fault tmp (target d format) body d).0 g
      ≡ updated (is_ok (attempt fault tmp (target d format) body d).1) format body (served d g) g
served-attempt (write_fails none) tmp body d format g unseen p = refl
served-attempt (write_fails (some left)) tmp body d format g unseen p =
    served_same (set_file tmp left d) d g (files-set_file_out g tmp left d (unseen g))
served-attempt (preserve_fails stays) tmp body d format g unseen p =
    served_same (abandon stays tmp (set_file tmp (some body) d)) d g
      (files-abandon stays tmp body d g (unseen g))
served-attempt (rename_fails stays) tmp body d format g unseen p =
    served_same (abandon stays tmp (set_file tmp (some body) d)) d g
      (files-abandon stays tmp body d g (unseen g))
served-attempt no_fault tmp body d format g unseen p = served-moved tmp body d format g unseen p
served-attempt mkdir_fails tmp body d format g unseen p = served-moved tmp body d format g unseen p
served-attempt remove_fails tmp body d format g unseen p = served-moved tmp body d format g unseen p
served-attempt sweep_fails tmp body d format g unseen p = served-moved tmp body d format g unseen p

-- After `put` of a text, in a format that can be served and is spelled in lower case, the directory
-- serves that text in that format where the write reports success, and what it served before
-- in every other format; where the write reports an error, wherever it failed, everything is
-- served as before.
pub served-put_in :
    {D : Type 0} (fault : Fault) (pid seq : ℕ) (format body : Str) (d : Folder D) (g : Str)
    → valid_format format ≡ true
    → to_ascii_lowercase format ≡ format
    → served (put_in fault pid seq format body d).0 g
      ≡ updated (is_ok (put_in fault pid seq format body d).1) format body (served d g) g
unfolding put_in write_atomic
served-put_in fault pid seq format body d g valid small =
    let name = target d format in
    let tmp = with_extension name (tmp_extension pid seq) in
    elim (Bool-cases (any (is_dir_named tmp) d)) [
      | inl blocked ↦ rw blocked refl
      | inr free ↦ rw free (
          served-attempt fault tmp body d format g (λ h. tmp-passes h name pid seq)
            (target-passes d format valid small))
    ]
