-- ===== src/Boot/Tftp/Path/Inside.antt =====
-- A resolved name lies inside the root.
use rescriptum.Prelude.{
  true, false, ◌&&◌, ◌||◌, List, [], ◌∷◌, ◌++◌, Option, none, some, Str, codes, if◌then◌else◌,
  str_eq, is_empty, split, trim_start_matches, ◌≡◌, ◌≢◌, refl, sym, ◌∙◌, arith, All, append_assoc,
  append-nil, Bool-cases, inl, inr, str_eq_iff,
}
use mathlib.Core.Path.{subst}
use rescriptum.Boot.Tftp.Path.{
  FilePath, FileSystem, is_separator, push_segments, starts_with, confine, look_up, resolve,
}

-- a segment that names something: not empty, and no dots that climb or stay
abbrev pub Plain : Str → Type 0
Plain s = (is_empty s ≡ false) × (s ≢ codes ".") × (s ≢ codes "..")

named-Plain :
    (s : Str)
    → (is_empty s || str_eq s (codes ".")) ≡ false
    → str_eq s (codes "..") ≡ false
    → Plain s
named-Plain s h g = ground (arith, str_eq_iff s (codes "."), str_eq_iff s (codes ".."))

push_segments-Plain :
    (path : FilePath) (segments : List Str) {r : FilePath}
    → push_segments path segments ≡ some r
    → (pushed : List Str) × (r ≡ path ++ pushed) × All Plain pushed
unfolding push_segments
push_segments-Plain path [] {r} h = let e : r ≡ path = cc in ([], e ∙ sym (append-nil path), tt)
push_segments-Plain path (segment ∷ rest) {r} h =
    elim (Bool-cases (is_empty segment || str_eq segment (codes "."))) [
      | inl skip ↦ push_segments-Plain path rest (rw skip at h)
      | inr named ↦ elim (Bool-cases (str_eq segment (codes ".."))) [
        | inl climbs ↦ let bad : none ≡ some r = rw (named, climbs) at h in cc
        | inr stays ↦
            let (pushed, e, plain) =
              push_segments-Plain (path ++ segment ∷ []) rest (rw (named, stays) at h) in
            (
              segment ∷ pushed,
              e ∙ append_assoc path (segment ∷ []) pushed,
              (named-Plain segment named stays, plain),
            )
      ]
    ]

-- What `resolve` answers with.
pub record Inside (fs : FileSystem) (root : FilePath) (r : FilePath) : Type 0 where
  pub pushed : List Str
  pub plain : All Plain pushed
  pub canonical : fs.canonicalize (root ++ pushed) ≡ some r
  pub within : starts_with r root ≡ true
  pub is_file : fs.is_file r ≡ true

option_injective : {a b : FilePath} → some a ≡ some b → a ≡ b
option_injective h = cc

confine-Inside :
    (fs : FileSystem) (root : FilePath) (o : Option FilePath) {r : FilePath}
    → confine fs root o ≡ some r
    → (o ≡ some r) × (starts_with r root ≡ true) × (fs.is_file r ≡ true)
confine-Inside fs root none h = cc
confine-Inside fs root (some path) {r} h =
    elim (Bool-cases (starts_with path root && fs.is_file path)) [
      | inr out ↦ let bad : none ≡ some r = rw out at h in cc
      | inl in_root ↦
          let same : some path ≡ some r = rw in_root at h in
          (
            same,
            subst (λ x. starts_with x root ≡ true) (option_injective same)
                (ground (arith, in_root)),
            subst (λ x. fs.is_file x ≡ true) (option_injective same) (ground (arith, in_root)),
          )
    ]

look_up-Inside :
    (fs : FileSystem) (root : FilePath) (o : Option FilePath) {r : FilePath}
    → look_up fs root o ≡ some r
    → (path : FilePath) × (o ≡ some path)
      × (fs.canonicalize path ≡ some r)
      × (starts_with r root ≡ true)
      × (fs.is_file r ≡ true)
look_up-Inside fs root none h = cc
look_up-Inside fs root (some path) h =
    let (a, b, c) = confine-Inside fs root (fs.canonicalize path) h in (path, refl, a, b, c)

empty_name :
    (fs : FileSystem) (root : FilePath) (relative : Str) {r : FilePath}
    → (if is_empty relative
        then none
        else look_up fs root (push_segments root (split is_separator relative)))
      ≡ some r
    → look_up fs root (push_segments root (split is_separator relative)) ≡ some r
empty_name fs root [] h = cc
empty_name fs root (c ∷ s) h = h

-- A name that resolves is a file inside the root: below the root once symbolic links are followed,
-- and reached from the root by plain components only, none of them `..`.
pub resolve-Inside :
    (fs : FileSystem) (root : FilePath) (filename : Str) {r : FilePath}
    → resolve fs root filename ≡ some r
    → Inside fs root r
unfolding resolve
resolve-Inside fs root filename {r} h =
    let relative = trim_start_matches is_separator filename in
    let (path, pushed_is, canonical, within, is_file) =
      look_up-Inside fs root (push_segments root (split is_separator relative))
        (empty_name fs root relative h) in
    let (pushed, e, plain) = push_segments-Plain root (split is_separator relative) pushed_is in
    record {
      pushed = pushed;
      plain = plain;
      canonical = subst (λ x. fs.canonicalize x ≡ some r) e canonical;
      within = within;
      is_file = is_file;
    }
