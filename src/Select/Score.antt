-- ===== src/Select/Score.antt =====
-- How src/select.rs ranks the claims on a request.
pub mod Best
pub mod Winner
use rescriptum.Prelude.{
  ℕ, suc, Bool, true, false, not, ◌&&◌, ◌||◌, List, [], ◌∷◌, Option, none, some, Str, codes,
  if◌then◌else◌, any, all, filter, filter_map, find, find_map, is_empty, contains, str_eq, str_ltb,
  ltb, ◌==◌, length, to_ascii_lowercase,
}
use mathlib.Core.List.{foldl}
use rescriptum.Facts.Labels.{Facts, values, matches}
use rescriptum.Format.{endpoint_formats}
use rescriptum.Format.Control.{Control}
use rescriptum.Select.Listing.{Candidate, Group, Fallback, Listing}

abbrev pub identity_score : ℕ
identity_score = 1000

-- the machine is named by one of its identifiers
abbrev pub names_machine : List Str → Facts → Bool
names_machine identity facts =
    any (λ needle. not (is_empty needle) && contains facts.haystack needle) identity

abbrev pub meets_all : List (Str × Str) → Facts → Bool
meets_all matchers facts = all (λ m. matches facts m.0 m.1) matchers

abbrev no_matchers : List (Str × Str) → Bool
no_matchers [] = true
no_matchers (_ ∷ _) = false

unfoldable pub score : Control → List Str → Facts → Option ℕ
score control identity facts =
    if names_machine identity facts
    then some identity_score
    else if no_matchers control.matchers
    then none
    else if meets_all control.matchers facts
    then some (length control.matchers)
    else none

unfoldable pub wanted : Facts → Option (List Str)
unfolding endpoint_formats
wanted facts = find_map endpoint_formats (values facts (codes "segment"))

-- `eq_ignore_ascii_case`
abbrev pub same_ignoring_case : Str → Str → Bool
same_ignoring_case a b = str_eq (to_ascii_lowercase a) (to_ascii_lowercase b)

unfoldable pub acceptable : Option (List Str) → Str → Bool
acceptable none format = true
acceptable (some formats) format = any (λ f. same_ignoring_case f format) formats

-- One claim: a score and the name that breaks ties.
pub record Claim (T : Type 0) : Type 0 where
  pub score : ℕ
  pub name : Str
  pub value : T

module _ {T : Type 0} where
  -- the comparison is `Greater`: a higher score, or the same score and a smaller name
  abbrev pub outranks : Claim T → Claim T → Bool
  outranks x y = ltb y.score x.score || (x.score == y.score && str_ltb x.name y.name)

  -- `max_by` keeps the later of two that compare equal
  abbrev pub better : Claim T → Claim T → Claim T
  better x y = if outranks x y then x else y

  unfoldable pub max_by : List (Claim T) → Option (Claim T)
  max_by [] = none
  max_by (x ∷ xs) = some (foldl better x xs)

  -- the claims of those that score
  abbrev pub claims : (T → Option ℕ) → (T → Str) → List T → List (Claim T)
  claims scored named [] = []
  claims scored named (t ∷ ts) = elim (scored t) [
    | none ↦ claims scored named ts
    | some s ↦ record { score = s; name = named t; value = t } ∷ claims scored named ts
  ]

  abbrev pub winner : Option (Claim T) → Option T
  winner none = none
  winner (some c) = some c.value

module _ {Doc : Type 0} where
  unfoldable pub group_named : Listing Doc → Str → Str → Option (Group Doc)
  group_named listing format name =
      find (λ g. str_eq g.name name && same_ignoring_case g.format format) listing.groups

  unfoldable pub best_group : Listing Doc → Facts → Option (Group Doc)
  unfolding max_by wanted acceptable score
  best_group listing facts =
      let formats = wanted facts in
      winner (
        max_by (
          claims (λ g. score g.control g.identity facts) (λ g. g.name)
            (filter (λ g. acceptable formats g.format) listing.groups)))

  unfoldable pub best_machine : Listing Doc → Facts → Option (Candidate Doc)
  unfolding max_by wanted acceptable score
  best_machine listing facts =
      let formats = wanted facts in
      winner (
        max_by (
          claims (λ c. score c.control c.identity facts) (λ c. c.id)
            (filter (λ c. acceptable formats c.format) listing.candidates)))

  unfoldable pub fallback_for : Listing Doc → Facts → Option (Fallback Doc)
  unfolding wanted acceptable
  fallback_for listing facts =
      let formats = wanted facts in find (λ f. acceptable formats f.format) listing.fallbacks
