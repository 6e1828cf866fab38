-- ===== src/Select/Build/Chain.antt =====
-- The walk along a group's `extends` chain, and the merge from its root down.
pub mod Ends
use rescriptum.Prelude.{
  ℕ, zero, suc, ◌+◌, Bool, true, false, not, ◌&&◌, List, [], ◌∷◌, ◌++◌, Option, none, some, Str,
  Bytes, if◌then◌else◌, str_eq, any, find, length,
}
use rescriptum.Prelude.Result.{Result, ok, err}
use rescriptum.Format.{Kind, kind_eq}
use rescriptum.Format.Control.{Control}
use rescriptum.Select.Docs.{Docs}
use rescriptum.Select.Listing.{Problem, cycle, unknown_parent, mixed_kinds, merge_failed}
use rescriptum.Select.Score.{same_ignoring_case}

-- one parsed group
pub record Parsed (Doc : Type 0) : Type 0 where
  pub name : Str
  pub format : Str
  pub origin : Str
  pub kind : Kind
  pub doc : Doc

abbrev pub is_seen : Str → List Str → Bool
is_seen s seen = any (λ x. str_eq x s) seen

-- How the walk ends: the root's document with those above it, from the root's child down to the
-- group's own; or a problem. `stuck` stands for a loop whose fuel ran out.
pub data Walk (Doc : Type 0) : Type 0 where
  chain : Doc → List Doc → Walk Doc
  broken : Problem → Walk Doc
  stuck : Walk Doc

module _ (D : Docs) where
  open D use {Doc, merge, control}

  abbrev pub parent_named : List (Parsed Doc) → Str → Str → Option (Parsed Doc)
  parent_named parsed format name =
      find (λ p. str_eq p.name name && same_ignoring_case p.format format) parsed

  -- The loop: `name`, `format` and `kind` are the group's own, `pushed` what the chain holds, the
  -- last document first.
  unfoldable pub walk :
      ℕ → List (Parsed Doc) → Str → Str → Kind → List Str → Str → List Doc → Walk Doc
  walk zero parsed name format kind seen current pushed = stuck
  walk (suc fuel) parsed name format kind seen current pushed = elim (is_seen current seen) [
    | true ↦ broken (cycle name current)
    | false ↦ elim (parent_named parsed format current) [
      | none ↦ broken (unknown_parent name current)
      | some parent ↦ elim (kind_eq parent.kind kind) [
        | false ↦ broken (mixed_kinds name kind current parent.kind)
        | true ↦ elim (control parent.doc).extends [
          | none ↦ chain parent.doc pushed
          | some above ↦
              walk fuel parsed name format kind (current ∷ seen) above (parent.doc ∷ pushed)
        ]
      ]
    ]
  ]

  -- every round but the last sees a new name of a parsed group
  abbrev pub walk_from : List (Parsed Doc) → Parsed Doc → Walk Doc
  walk_from parsed p = walk (length parsed + 2) parsed p.name p.format p.kind [] p.name []

  -- From the root down; the first layer that does not merge ends the loop with a problem.
  unfoldable pub merge_chain : Str → Doc → List Doc → Doc × List Problem
  merge_chain name merged [] = (merged, [])
  merge_chain name merged (doc ∷ rest) = elim (merge merged doc) [
    | err e ↦ (merged, merge_failed name e ∷ [])
    | ok m ↦ merge_chain name m rest
  ]
