-- ===== src/Select/Build/Groups.antt =====
-- The groups of a listing (src/select.rs, the first part of `build`).
use rescriptum.Prelude.{
  Bool, not, ◌&&◌, ◌||◌, List, [], ◌∷◌, ◌++◌, map, filter, Option, none, some, Str, if◌then◌else◌,
  str_eq, str_ltb, is_empty,
}
use rescriptum.Prelude.Result.{Result, ok, err}
use rescriptum.Prelude.Utf8.{encode}
use rescriptum.Normalize.{normalize}
use rescriptum.Format.{Kind, for_extension}
use rescriptum.Format.Control.{Control}
use rescriptum.Select.Docs.{Docs}
use rescriptum.Select.Listing.{GroupEntry, Group, Problem, reported, unknown_format}
use rescriptum.Select.Build.Chain.{Parsed, chain, broken, stuck, walk_from, walk, merge_chain}

-- `sort_by`, which is stable, with the order on names and then on formats
abbrev pub before : Str → Str → Str → Str → Bool
before name format name' format' =
    str_ltb name name' || (str_eq name name' && str_ltb format format')

abbrev pub place : {T : Type 0} → (T → T → Bool) → T → List T → List T
place lt x [] = x ∷ []
place lt x (y ∷ ys) = if lt y x then y ∷ place lt x ys else x ∷ y ∷ ys

abbrev pub sort_by : {T : Type 0} → (T → T → Bool) → List T → List T
sort_by lt [] = []
sort_by lt (x ∷ xs) = place lt x (sort_by lt xs)

-- `kind_of`
unfoldable pub kind_of : Str → Str → Result Problem Kind
unfolding for_extension
kind_of format what = elim (for_extension format) [
  | some kind ↦ ok kind
  | none ↦ err (unknown_format what format)
]

-- the members, normalized, without those that are empty then
abbrev pub member_identity : Control → List Str
member_identity c = filter (λ n. not (is_empty n)) (map (λ m. normalize (encode m)) c.members)

module _ (D : Docs) where
  open D use {Doc, parse, control, strip_control, render, has_placeholders}

  unfoldable pub parse_group : GroupEntry → Result Problem (Parsed Doc)
  unfolding kind_of
  parse_group g = elim (kind_of g.format g.origin) [
    | err p ↦ err p
    | ok kind ↦ elim (parse kind g.body g.origin) [
      | err e ↦ err (reported e)
      | ok doc ↦
          ok
            (record { name = g.name; format = g.format; origin = g.origin; kind = kind; doc = doc })
    ]
  ]

  unfoldable pub parse_groups : List GroupEntry → List (Parsed Doc) × List Problem
  unfolding parse_group
  parse_groups [] = ([], [])
  parse_groups (g ∷ gs) =
      let (parsed, problems) = parse_groups gs in
      elim (parse_group g) [ err p ↦ (parsed, p ∷ problems) | ok d ↦ (d ∷ parsed, problems) ]

  unfoldable pub make_group : Parsed Doc → Doc → Group Doc
  unfolding normalize
  make_group p merged =
      let c = control p.doc in
      record {
        name = p.name;
        format = p.format;
        has_placeholders = has_placeholders merged;
        origin = p.origin;
        kind = p.kind;
        identity = member_identity c;
        control = c;
        merged = merged;
        rendered = render (strip_control merged);
      }

  -- one round of the loop over the parsed groups: a group unless its chain is broken
  unfoldable pub compose_group : List (Parsed Doc) → Parsed Doc → Option (Group Doc) × List Problem
  unfolding walk merge_chain make_group
  compose_group parsed p = elim (walk_from D parsed p) [
    | broken problem ↦ (none, problem ∷ [])
    | stuck ↦ (none, [])
    | chain root rest ↦
        let (merged, problems) = merge_chain D p.name root rest in
        (some (make_group p merged), problems)
  ]

  unfoldable pub compose_groups :
      List (Parsed Doc) → List (Parsed Doc) → List (Group Doc) × List Problem
  unfolding compose_group
  compose_groups parsed [] = ([], [])
  compose_groups parsed (p ∷ ps) =
      let (made, found) = compose_group parsed p in
      let (groups, problems) = compose_groups parsed ps in
      (elim made [ none ↦ groups | some g ↦ g ∷ groups ], found ++ problems)

  abbrev pub sort_groups : List (Group Doc) → List (Group Doc)
  sort_groups = sort_by (λ a b. before a.name a.format b.name b.format)
