-- ===== src/Store/File/Remove.antt =====
-- Removing a document.
use rescriptum.Prelude.{
  ◌≤◌, Bool, true, false, not, ◌&&◌, List, [], ◌∷◌, filter, any, Option, none, some, Str,
  if◌then◌else◌, length, str_eq, str_eq_iff, ◌≡◌, refl, sym, ap, ◌∙◌, arith, Bool-cases,
  Option-cases, inl, inr,
}
use mathlib.Core.Path.{subst}
use rescriptum.Prelude.Result.{ok}
use rescriptum.Store.File.{
  Folder, Candidate, Fault, no_fault, mkdir_fails, preserve_fails, rename_fails, remove_fails,
  sweep_fails, write_fails, existing, removed, remove_in, remove_file, by_name, dir, file,
}
use rescriptum.Store.File.Served.{served, first_readable}
use rescriptum.Store.File.Names.{passes, passes_other}
use rescriptum.Store.File.Matching.{files, named, as_file, named-passes, files-remove_file_out}
use rescriptum.Store.File.Put.{
  is_ok, served_same, served-files, existing-files, no_first, named_there,
}
use rescriptum.Store.File.Single.{IsSingle, count-files}

files-remove_file :
    {D : Type 0} (g n : Str) (d : Folder D)
    → files g (remove_file n d) ≡ filter (λ c. not (named n c)) (files g d)
files-remove_file g n [] = refl
files-remove_file g n ((name, dir _) ∷ d) = files-remove_file g n d
files-remove_file g n ((name, file old) ∷ d) = elim (Bool-cases (str_eq name n)) [
  | inl same ↦ elim (Bool-cases (passes g name)) [
    | inl kept ↦ rw (same, kept) (rw same (files-remove_file g n d))
    | inr dropped ↦ rw (same, dropped) (files-remove_file g n d)
  ]
  | inr other ↦ elim (Bool-cases (passes g name)) [
    | inl kept ↦
        rw (other, kept) (rw other (ap (λ cs. as_file g name old ∷ cs) (files-remove_file g n d)))
    | inr dropped ↦ rw (other, dropped) (files-remove_file g n d)
  ]
]

only_one :
    (n : Str) (cs : List Candidate)
    → length cs ≤ 1
    → any (named n) cs ≡ true
    → filter (λ c. not (named n c)) cs ≡ []
only_one n [] few h = refl
only_one n (c ∷ []) few h = let test : str_eq c.name n ≡ true = ground arith in rw test refl
only_one n (c ∷ e ∷ cs) few h = absurd (omega arith)

-- what is served once a document of a format is removed, or the removal fails
abbrev pub without : Bool → Str → Option Str → Str → Option Str
without done format old g = if done && str_eq format g then none else old

served-gone :
    {D : Type 0} (format n : Str) (d : Folder D) (g : Str)
    → IsSingle d
    → existing d format ≡ some n
    → served (remove_file n d) g ≡ without true format (served d g) g
served-gone format n d g single there = elim (Bool-cases (str_eq format g)) [
  | inr other ↦ rw other (
      served_same (remove_file n d) d g (
        files-remove_file_out g n d
          (passes_other format g n (named-passes format n d (named_there d format n there)) other)))
  | inl same ↦
      let e : format ≡ g = (str_eq_iff format g).0 same in
      let there' = subst (λ f. existing d f ≡ some n) e there in
      let few : length (files g d) ≤ 1 = omega (arith, single.at_most_one g, count-files d g) in
      rw same (
        served-files (remove_file n d) g
        ∙ ap (λ cs. first_readable (by_name cs))
            (files-remove_file g n d ∙ only_one n (files g d) few (named_there d g n there')))
]

remove_absent :
    {D : Type 0} (fault : Fault) (format : Str) (d : Folder D)
    → existing d format ≡ none
    → remove_in fault format d ≡ (d, ok false)
unfolding remove_in
remove_absent fault format d absent = rw (absent, remove_in) refl

remove_there :
    {D : Type 0} (fault : Fault) (format : Str) (d : Folder D) (n : Str)
    → existing d format ≡ some n
    → remove_in fault format d ≡ removed fault n d
unfolding remove_in
remove_there fault format d n there = rw (there, remove_in) refl

served-absent :
    {D : Type 0} (format : Str) (d : Folder D) (g : Str)
    → existing d format ≡ none
    → served d g ≡ without true format (served d g) g
served-absent format d g absent = elim (Bool-cases (str_eq format g)) [
  | inr other ↦ rw other refl
  | inl same ↦
      let absent' = subst (λ f. existing d f ≡ none) ((str_eq_iff format g).0 same) absent in
      rw same (
        served-files d g
        ∙ ap (λ cs. first_readable (by_name cs))
            (no_first (files g d) (sym (existing-files d g) ∙ absent')))
]

served-removed :
    {D : Type 0} (fault : Fault) (format n : Str) (d : Folder D) (g : Str)
    → IsSingle d
    → existing d format ≡ some n
    → served (removed fault n d).0 g ≡ without (is_ok (removed fault n d).1) format (served d g) g
served-removed remove_fails format n d g single there = refl
served-removed no_fault format n d g single there = served-gone format n d g single there
served-removed mkdir_fails format n d g single there = served-gone format n d g single there
served-removed sweep_fails format n d g single there = served-gone format n d g single there
served-removed (preserve_fails _) format n d g single there = served-gone format n d g single there
served-removed (rename_fails _) format n d g single there = served-gone format n d g single there
served-removed (write_fails _) format n d g single there = served-gone format n d g single there

-- In a directory with at most one file for each format, a `remove` that reports no error leaves
-- nothing to serve in its format, and one that reports an error changes nothing; what is served
-- in every other format stays.
pub served-remove_in :
    {D : Type 0} (fault : Fault) (format : Str) (d : Folder D) (g : Str)
    → IsSingle d
    → served (remove_in fault format d).0 g
      ≡ without (is_ok (remove_in fault format d).1) format (served d g) g
served-remove_in fault format d g single = elim (Option-cases (existing d format)) [
  | inl absent ↦ rw (remove_absent fault format d absent) (served-absent format d g absent)
  | inr (n, there) ↦
      rw (remove_there fault format d n there) (served-removed fault format n d g single there)
]
