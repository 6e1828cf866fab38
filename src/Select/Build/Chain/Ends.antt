-- ===== src/Select/Build/Chain/Ends.antt =====
-- The walk along an `extends` chain ends.
use rescriptum.Prelude.{
  ℕ, zero, suc, ◌+◌, ◌<◌, ◌≤◌, true, false, ◌&&◌, List, [], ◌∷◌, some, Str, if◌then◌else◌, str_eq,
  str_eq_iff, find, length, ◌≡◌, sym, arith, Bool-cases, Option-cases, inl, inr,
}
use mathlib.Core.Path.{subst}
use rescriptum.Format.{Kind, kind_eq}
use rescriptum.Select.Docs.{Docs}
use rescriptum.Select.Listing.{Problem, cycle, unknown_parent, mixed_kinds}
use rescriptum.Select.Score.{same_ignoring_case}
use rescriptum.Select.Build.Chain.{
  Parsed, Walk, chain, broken, is_seen, parent_named, walk, walk_from,
}

module _ {Doc : Type 0} where
  -- how many parsed groups have a name that was not seen
  unseen : List Str → List (Parsed Doc) → ℕ
  unseen seen [] = 0
  unseen seen (p ∷ ps) = if is_seen p.name seen then unseen seen ps else unseen seen ps + 1

  unseen_all : (seen : List Str) (ps : List (Parsed Doc)) → unseen seen ps ≤ length ps
  unfolding unseen
  unseen_all seen [] = ground arith
  unseen_all seen (p ∷ ps) = ground (arith, unseen_all seen ps)

  unseen_more :
      (c : Str) (seen : List Str) (ps : List (Parsed Doc)) → unseen (c ∷ seen) ps ≤ unseen seen ps
  unfolding unseen
  unseen_more c seen [] = ground arith
  unseen_more c seen (p ∷ ps) = ground (arith, unseen_more c seen ps)

  -- seeing the name of a parsed group for the first time leaves fewer
  unseen_fewer :
      (c format : Str) (seen : List Str) (ps : List (Parsed Doc))
      → is_seen c seen ≡ false
      → (q : Parsed Doc)
      → find (λ p. str_eq p.name c && same_ignoring_case p.format format) ps ≡ some q
      → unseen (c ∷ seen) ps < unseen seen ps
  unfolding unseen
  unseen_fewer c format seen [] new q h = cc
  unseen_fewer c format seen (p ∷ ps) new q h =
      elim (Bool-cases (str_eq p.name c && same_ignoring_case p.format format)) [
        | inl here ↦
            let e : p.name ≡ c = (str_eq_iff p.name c).0 (ground (arith, here)) in
            let a : str_eq c p.name ≡ true = (str_eq_iff c p.name).1 (sym e) in
            let b : is_seen p.name seen ≡ false = subst (λ x. is_seen x seen ≡ false) (sym e) new in
            rw (a, b) (ground (arith, unseen_more c seen ps))
        | inr later ↦
            let ih = unseen_fewer c format seen ps new q (rw later at h) in ground (arith, ih)
      ]

-- Either the chain or a problem, never a walk cut short.
pub data IsEnded {Doc : Type 0} : Walk Doc → Type 0 where
  whole : (root : Doc) (above : List Doc) → IsEnded (chain root above)
  refused : (p : Problem) → IsEnded (broken p)

module _ (D : Docs) where
  open D use {Doc, control}

  walk-IsEnded :
      (fuel : ℕ) (parsed : List (Parsed Doc)) (name format : Str) (kind : Kind) (seen : List Str)
      (current : Str) (pushed : List Doc)
      → unseen seen parsed < fuel
      → IsEnded (walk D fuel parsed name format kind seen current pushed)
  unfolding walk
  walk-IsEnded zero parsed name format kind seen current pushed h = absurd (omega arith)
  walk-IsEnded (suc fuel) parsed name format kind seen current pushed h =
      elim (Bool-cases (is_seen current seen)) [
        | inl again ↦ rw (again, walk) (refused (cycle name current))
        | inr new ↦ elim (Option-cases (parent_named D parsed format current)) [
          | inl none_so ↦ rw (new, none_so, walk) (refused (unknown_parent name current))
          | inr (parent, found) ↦ elim (Bool-cases (kind_eq parent.kind kind)) [
            | inr other ↦
                rw (new, found, other, walk) (refused (mixed_kinds name kind current parent.kind))
            | inl same ↦ elim (Option-cases (control parent.doc).extends) [
              | inl root ↦ rw (new, found, same, root, walk) (whole parent.doc pushed)
              | inr (above, more) ↦
                  let fewer = unseen_fewer current format seen parsed new parent found in
                  rw (new, found, same, more, walk)
                    (walk-IsEnded fuel parsed name format kind (current ∷ seen) above
                      (parent.doc ∷ pushed) (ground (arith, fewer, h)))
            ]
          ]
        ]
      ]

  -- Whatever groups there are, cycles and dangling names included, the walk along a group's `extends`
  -- ends with its chain or with a problem: the rounds provided are enough.
  pub walk_from-IsEnded :
      (parsed : List (Parsed Doc)) (p : Parsed Doc) → IsEnded (walk_from D parsed p)
  walk_from-IsEnded parsed p =
      let le = unseen_all [] parsed in
      walk-IsEnded (length parsed + 2) parsed p.name p.format p.kind [] p.name []
        (ground (arith, le))
