-- ===== src/Store/File/Single.antt =====
-- At most one document of each format: an invariant of an identity's directory.
use rescriptum.Prelude.{
  ℕ, ◌≤◌, true, false, List, [], ◌∷◌, ◌++◌, map, filter, filter_map, any, none, some, Str,
  if◌then◌else◌, length, str_eq, str_eq_iff, to_ascii_lowercase, ◌≡◌, refl, sym, ap, ◌∙◌, arith,
  Bool-cases, Option-cases, inl, inr,
}
use mathlib.Core.Path.{subst}
use rescriptum.Admin.Write.{valid_format}
use rescriptum.Store.File.{
  Folder, Candidate, Fault, no_fault, mkdir_fails, preserve_fails, rename_fails, remove_fails,
  sweep_fails, abandon, write_fails, candidate_of, existing, target, put_in, write_atomic, attempt,
  moved, set_file, remove_file, is_dir_named, with_extension, tmp_extension,
}
use rescriptum.Store.File.Served.{of_format}
use rescriptum.Store.File.Names.{passes, passes_other, tmp-passes}
use rescriptum.Store.File.Matching.{
  files, filter-candidates, put_text, named, as_file, files-set_file_out, files-set_file_in,
}
use rescriptum.Store.File.Put.{
  target-passes, target_there, named_there, no_first, files-undone, files-abandon, existing-files,
}

-- how many files of a directory answer for a format
unfoldable pub count : {D : Type 0} → Folder D → Str → ℕ
unfolding candidate_of
count d g = length (filter (of_format g) (filter_map candidate_of d))

pub record IsSingle {D : Type 0} (d : Folder D) : Type 0 where
  pub at_most_one : (g : Str) → count d g ≤ 1

pub count-files : {D : Type 0} (d : Folder D) (g : Str) → count d g ≡ length (files g d)
unfolding count
count-files d g = ap length (filter-candidates g d)

length-map : (f : Candidate → Candidate) (cs : List Candidate) → length (map f cs) ≡ length cs
length-map f [] = refl
length-map f (c ∷ cs) = omega (arith, length-map f cs)

count_same :
    {D : Type 0} (d before : Folder D) (g : Str)
    → files g d ≡ files g before
    → count before g ≤ 1
    → count d g ≤ 1
count_same d before g same h =
    omega (arith, h, count-files d g, count-files before g, ap length same)

count-set_file :
    {D : Type 0} (d before : Folder D) (g body : Str)
    → files g d ≡ files g before
    → passes g (target before g) ≡ true
    → count before g ≤ 1
    → count (set_file (target before g) (some body) d) g ≤ 1
count-set_file d before g body same p h =
    let n = target before g in
    let m =
      count-files (set_file n (some body) d) g
      ∙ ap length (files-set_file_in g n (some body) d p) in
    elim (Option-cases (existing before g)) [
      | inl absent ↦
          let empty : files g d ≡ [] =
            same ∙ no_first (files g before) (sym (existing-files before g) ∙ absent) in
          let one =
            m
            ∙ ap
                (λ cs. length (
                  if any (named n) cs
                  then map (put_text n (some body)) cs
                  else cs ++ (as_file g n (some body) ∷ [])))
                empty in
          omega (arith, one)
      | inr (name, there) ↦
          let in_files : any (named n) (files g d) ≡ true =
            ap (any (named n)) same
            ∙ subst (λ x. any (named x) (files g before) ≡ true)
                (sym (target_there before g name there)) (named_there before g name there) in
          let many =
            m
            ∙ ap
                (λ b. length (
                  if b
                  then map (put_text n (some body)) (files g d)
                  else files g d ++ (as_file g n (some body) ∷ [])))
                in_files
            ∙ length-map (put_text n (some body)) (files g d)
            ∙ ap length same in
          omega (arith, many, h, count-files before g)
    ]

count-moved :
    {D : Type 0} (tmp body : Str) (d : Folder D) (format g : Str)
    → ((g : Str) → passes g tmp ≡ false)
    → passes format (target d format) ≡ true
    → ((g : Str) → count d g ≤ 1)
    → count (moved tmp (target d format) body (set_file tmp (some body) d)).0 g ≤ 1
count-moved tmp body d format g unseen p h =
    let back = remove_file tmp (set_file tmp (some body) d) in
    elim (Bool-cases (any (is_dir_named (target d format)) (set_file tmp (some body) d))) [
      | inl blocked ↦ rw blocked (count_same back d g (files-undone tmp body d g (unseen g)) (h g))
      | inr free ↦ elim (Bool-cases (str_eq format g)) [
        | inl same ↦ rw free (
            subst (λ f. count (set_file (target d format) (some body) back) f ≤ 1)
              ((str_eq_iff format g).0 same)
              (count-set_file back d format body (files-undone tmp body d format (unseen format)) p
                (h format)))
        | inr other ↦ rw free (
            count_same (set_file (target d format) (some body) back) d g
              (files-set_file_out g (target d format) (some body) back
                  (passes_other format g (target d format) p other)
                ∙ files-undone tmp body d g (unseen g))
              (h g))
      ]
    ]

count-attempt :
    {D : Type 0} (fault : Fault) (tmp body : Str) (d : Folder D) (format g : Str)
    → ((g : Str) → passes g tmp ≡ false)
    → passes format (target d format) ≡ true
    → ((g : Str) → count d g ≤ 1)
    → count (attempt fault tmp (target d format) body d).0 g ≤ 1
count-attempt (write_fails none) tmp body d format g unseen p h = h g
count-attempt (write_fails (some left)) tmp body d format g unseen p h =
    count_same (set_file tmp left d) d g (files-set_file_out g tmp left d (unseen g)) (h g)
count-attempt (preserve_fails stays) tmp body d format g unseen p h =
    count_same (abandon stays tmp (set_file tmp (some body) d)) d g
      (files-abandon stays tmp body d g (unseen g)) (h g)
count-attempt (rename_fails stays) tmp body d format g unseen p h =
    count_same (abandon stays tmp (set_file tmp (some body) d)) d g
      (files-abandon stays tmp body d g (unseen g)) (h g)
count-attempt no_fault tmp body d format g unseen p h = count-moved tmp body d format g unseen p h
count-attempt mkdir_fails tmp body d format g unseen p h =
    count-moved tmp body d format g unseen p h
count-attempt remove_fails tmp body d format g unseen p h =
    count-moved tmp body d format g unseen p h
count-attempt sweep_fails tmp body d format g unseen p h =
    count-moved tmp body d format g unseen p h

-- A `put` in a format that can be served and is spelled in lower case, whether it succeeds or
-- fails, leaves at most one file for each format in a directory that had at most one.
pub put_in-IsSingle :
    {D : Type 0} (fault : Fault) (pid seq : ℕ) (format body : Str) (d : Folder D)
    → valid_format format ≡ true
    → to_ascii_lowercase format ≡ format
    → IsSingle d
    → IsSingle (put_in fault pid seq format body d).0
unfolding put_in write_atomic
put_in-IsSingle fault pid seq format body d valid small single =
    let name = target d format in
    let tmp = with_extension name (tmp_extension pid seq) in
    elim (Bool-cases (any (is_dir_named tmp) d)) [
      | inl blocked ↦ rw blocked single
      | inr free ↦ rw free (record {
        at_most_one = λ g.
            count-attempt fault tmp body d format g (λ h. tmp-passes h name pid seq)
              (target-passes d format valid small) (λ g. single.at_most_one g);
      })
    ]
