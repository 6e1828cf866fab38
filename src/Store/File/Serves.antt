-- ===== src/Store/File/Serves.antt =====
-- A write that nothing stands in the way of succeeds, and is served.
use rescriptum.Prelude.{
  ℕ, true, false, ◌||◌, [], ◌∷◌, ◌++◌, map, any, Option, some, Str, if◌then◌else◌, str_eq,
  str_eq_self, to_ascii_lowercase, ◌≡◌, refl, ap, ◌∙◌, Bool-cases, inl, inr,
}
use rescriptum.Admin.Write.{valid_format}
use rescriptum.Store.File.{
  Folder, no_fault, file, dir, target, put_in, write_atomic, set_file, over, is_file_named,
  is_dir_named, with_extension, tmp_extension,
}
use rescriptum.Store.File.Served.{served}
use rescriptum.Store.File.Put.{is_ok, updated, served-put_in}

module _ {D : Type 0} (n t : Str) (text : Option Str) where
  any_dir-over :
      (d : Folder D) → any (is_dir_named n) (map (over t text) d) ≡ any (is_dir_named n) d
  any_dir-over [] = refl
  any_dir-over ((name, dir x) ∷ d) = ap (λ b. str_eq name n || b) (any_dir-over d)
  any_dir-over ((name, file old) ∷ d) = elim (Bool-cases (str_eq name t)) [
    | inl same ↦ rw same (any_dir-over d)
    | inr other ↦ rw other (any_dir-over d)
  ]

  any_dir-append :
      (d : Folder D) → any (is_dir_named n) (d ++ ((t, file text) ∷ [])) ≡ any (is_dir_named n) d
  any_dir-append [] = refl
  any_dir-append ((name, dir x) ∷ d) = ap (λ b. str_eq name n || b) (any_dir-append d)
  any_dir-append ((name, file old) ∷ d) = any_dir-append d

  any_dir-set_file :
      (d : Folder D) → any (is_dir_named n) (set_file t text d) ≡ any (is_dir_named n) d
  any_dir-set_file d = elim (Bool-cases (any (is_file_named t) d)) [
    | inl there ↦ rw there (any_dir-over d)
    | inr absent ↦ rw absent (any_dir-append d)
  ]

-- the name of the temporary file of a `put`
abbrev pub tmp_of : {D : Type 0} → ℕ → ℕ → Str → Folder D → Str
tmp_of pid seq format d = with_extension (target d format) (tmp_extension pid seq)

put_in-ok :
    {D : Type 0} (pid seq : ℕ) (format body : Str) (d : Folder D)
    → any (is_dir_named (target d format)) d ≡ false
    → any (is_dir_named (tmp_of pid seq format d)) d ≡ false
    → is_ok (put_in no_fault pid seq format body d).1 ≡ true
unfolding put_in write_atomic
put_in-ok pid seq format body d free free_tmp =
    let name = target d format in
    let tmp = tmp_of pid seq format d in
    rw (free_tmp, any_dir-set_file name tmp (some body) d ∙ free) refl

-- Where the file system refuses nothing and no directory stands at the name that is written or
-- at its temporary name, a `put` in a format that can be served and is spelled in lower case
-- makes the directory serve the text in that format.
pub put_in-serves :
    {D : Type 0} (pid seq : ℕ) (format body : Str) (d : Folder D)
    → valid_format format ≡ true
    → to_ascii_lowercase format ≡ format
    → any (is_dir_named (target d format)) d ≡ false
    → any (is_dir_named (tmp_of pid seq format d)) d ≡ false
    → served (put_in no_fault pid seq format body d).0 format ≡ some body
put_in-serves pid seq format body d valid small free free_tmp =
    served-put_in no_fault pid seq format body d format valid small
    ∙ ap (λ done. updated done format body (served d format) format)
        (put_in-ok pid seq format body d free free_tmp)
    ∙ ap (λ same. if same then some body else served d format) (str_eq_self format)
