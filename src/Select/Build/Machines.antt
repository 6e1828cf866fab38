-- ===== src/Select/Build/Machines.antt =====
-- The machines and the fallbacks of a listing (src/select.rs, the second part of `build`).
use rescriptum.Prelude.{
  Bool, List, [], ◌∷◌, ◌++◌, Option, none, some, Str, if◌then◌else◌, str_eq, any, is_empty,
}
use rescriptum.Prelude.Result.{Result, ok, err}
use rescriptum.Prelude.Utf8.{encode}
use rescriptum.Normalize.{normalize}
use rescriptum.Format.{Kind}
use rescriptum.Format.Control.{Control, no_control}
use rescriptum.Select.Docs.{Docs}
use rescriptum.Select.Listing.{
  MachineEntry, FallbackEntry, Candidate, Fallback, Group, Problem, reported,
  machine_unknown_parent, fallback_unknown_parent,
}
use rescriptum.Select.Build.Groups.{before, sort_by, kind_of}

-- an identifier of punctuation alone names nothing
abbrev pub machine_identity : Str → List Str
machine_identity id =
    let needle = normalize (encode id) in if is_empty needle then [] else needle ∷ []

abbrev pub parse_problem : {Doc : Type 0} → Result Str Doc → List Problem
parse_problem (ok _) = []
parse_problem (err e) = reported e ∷ []

module _ (D : Docs) where
  open D use {Doc, parse, control}

  abbrev pub control_or_default : Result Str Doc → Control
  control_or_default (ok doc) = control doc
  control_or_default (err _) = no_control

  unfoldable pub make_candidate : Kind → MachineEntry → Candidate Doc
  unfolding normalize
  make_candidate kind m =
      let doc = parse kind m.body m.origin in
      record {
        id = m.id;
        format = m.format;
        identity = machine_identity m.id;
        kind = kind;
        doc = doc;
        control = control_or_default doc;
      }

  unfoldable pub load_machines : List MachineEntry → List (Candidate Doc) × List Problem
  unfolding kind_of make_candidate
  load_machines [] = ([], [])
  load_machines (m ∷ ms) =
      let (candidates, problems) = load_machines ms in
      elim (kind_of m.format m.origin) [
        | err p ↦ (candidates, p ∷ problems)
        | ok kind ↦ (
          make_candidate kind m ∷ candidates,
          parse_problem (parse kind m.body m.origin) ++ problems,
        )
      ]

  abbrev pub sort_candidates : List (Candidate Doc) → List (Candidate Doc)
  sort_candidates = sort_by (λ a b. before a.id a.format b.id b.format)

  -- the set of the groups' names
  abbrev pub is_known : List (Group Doc) → Str → Bool
  is_known groups name = any (λ g. str_eq g.name name) groups

  abbrev pub extends_problem : List (Group Doc) → Option Str → (Str → Problem) → List Problem
  extends_problem groups none problem = []
  extends_problem groups (some parent) problem =
      if is_known groups parent then [] else problem parent ∷ []

  unfoldable pub check_machines : List (Group Doc) → List (Candidate Doc) → List Problem
  check_machines groups [] = []
  check_machines groups (c ∷ cs) =
      extends_problem groups c.control.extends (machine_unknown_parent c.id)
      ++ check_machines groups cs

  abbrev pub fallback_problems : List (Group Doc) → Str → Result Str Doc → List Problem
  fallback_problems groups what (err e) = reported e ∷ []
  fallback_problems groups what (ok doc) =
      extends_problem groups (control doc).extends (fallback_unknown_parent what)

  unfoldable pub load_fallbacks :
      List (Group Doc) → List FallbackEntry → List (Fallback Doc) × List Problem
  unfolding kind_of
  load_fallbacks groups [] = ([], [])
  load_fallbacks groups (d ∷ ds) =
      let (fallbacks, problems) = load_fallbacks groups ds in
      elim (kind_of d.format d.origin) [
        | err p ↦ (fallbacks, p ∷ problems)
        | ok kind ↦
            let doc = parse kind d.body d.origin in
            (
              record { format = d.format; kind = kind; doc = doc } ∷ fallbacks,
              fallback_problems groups d.origin doc ++ problems,
            )
      ]
