-- ===== src/Select/Resolve.antt =====
-- `fill` and `Answers::resolve` of src/select.rs, on a loaded listing.
use rescriptum.Prelude.{
  true, false, List, [], ◌∷◌, Option, none, some, Str, codes, if◌then◌else◌, str_eq,
}
use rescriptum.Prelude.Result.{Result, ok, err, ◌>>=◌, map_err}
use rescriptum.Facts.Labels.{Facts, values}
use rescriptum.Format.{content_type}
use rescriptum.Select.Docs.{Docs}
use rescriptum.Select.Listing.{
  Candidate, Group, Fallback, Listing, Resolution, Failure, broken, machine_extends_unknown,
  default_extends_unknown, machine_over_group, default_over_group, not_filled,
}
use rescriptum.Select.Score.{group_named, best_group, best_machine, fallback_for}

abbrev first : List Str → Option Str
first [] = none
first (v ∷ _) = some v

-- the variables of a template
unfoldable pub variable : Facts → Option Str → Option Str → Str → Option Str
variable facts machine group key =
    if str_eq key (codes "machine")
    then machine
    else if str_eq key (codes "group")
    then group
    else first (values facts key)

module _ (D : Docs) where
  open D use {Doc, merge, control, strip_control, render, has_placeholders, substitute}

  unfoldable pub fill : Facts → Option Str → Option Str → Doc → Result Failure Doc
  unfolding variable
  fill facts machine group doc =
      if has_placeholders doc
      then map_err not_filled (substitute (variable facts machine group) doc)
      else ok doc

  -- `strip_control` and `render`, the last two steps of every arm
  abbrev pub finish : Doc → Str
  finish doc = render (strip_control doc)

  unfoldable pub group_only : Facts → Group Doc → Result Failure Resolution
  unfolding fill content_type
  group_only facts g = do
    body ←
        if g.has_placeholders
        then (do doc ← fill facts none (some g.name) g.merged; ok (finish doc))
        else ok g.rendered
    ok (record {
      body = body;
      content_type = content_type g.kind;
      machine = none;
      group = some g.name;
      used_default = false;
      format = g.kind;
      format_name = g.format;
    })

  unfoldable pub machine_only : Facts → Candidate Doc → Doc → Result Failure Resolution
  unfolding fill content_type
  machine_only facts c doc = do
    filled ← fill facts (some c.id) none doc
    ok (record {
      body = finish filled;
      content_type = content_type c.kind;
      machine = some c.id;
      group = none;
      used_default = false;
      format = c.kind;
      format_name = c.format;
    })

  -- the group underneath, the machine on top
  unfoldable pub machine_and_group :
      Facts → Candidate Doc → Doc → Group Doc → Result Failure Resolution
  unfolding fill content_type
  machine_and_group facts c doc g = do
    merged ← map_err (machine_over_group c.id g.name) (merge g.merged doc)
    filled ← fill facts (some c.id) (some g.name) merged
    ok (record {
      body = finish filled;
      content_type = content_type c.kind;
      machine = some c.id;
      group = some g.name;
      used_default = false;
      format = c.kind;
      format_name = c.format;
    })

  -- the default document over the group that it extends, if it extends one
  unfoldable pub default_doc : Listing Doc → Str → Doc → Option Str → Result Failure Doc
  unfolding group_named
  default_doc listing format doc none = ok doc
  default_doc listing format doc (some name) = elim (group_named listing format name) [
    | none ↦ err (default_extends_unknown name)
    | some g ↦ map_err (default_over_group name) (merge g.merged doc)
  ]

  unfoldable pub fall_back :
      Listing Doc → Facts → Option (Fallback Doc) → Result Failure (Option Resolution)
  unfolding fill default_doc content_type
  fall_back listing facts none = ok none
  fall_back listing facts (some f) = do
    doc ← map_err broken f.doc
    layered ← default_doc listing f.format doc (control doc).extends
    filled ← fill facts none none layered
    ok (
        some (record {
          body = finish filled;
          content_type = content_type f.kind;
          machine = none;
          group = none;
          used_default = true;
          format = f.kind;
          format_name = f.format;
        }))

  -- an explicit `extends` beats group membership
  unfoldable pub group_of :
      Listing Doc → Facts → Candidate Doc → Option Str → Result Failure (Option (Group Doc))
  unfolding group_named best_group
  group_of listing facts c none = ok (best_group listing facts)
  group_of listing facts c (some name) = elim (group_named listing c.format name) [
    | none ↦ err (machine_extends_unknown c.id name)
    | some g ↦ ok (some g)
  ]

  abbrev wrap : Result Failure Resolution → Result Failure (Option Resolution)
  wrap r = do a ← r; ok (some a)

  abbrev pub with_group :
      Facts → Candidate Doc → Doc → Option (Group Doc) → Result Failure Resolution
  with_group facts c doc none = machine_only facts c doc
  with_group facts c doc (some g) = machine_and_group facts c doc g

  abbrev pub without_machine :
      Listing Doc → Facts → Option (Group Doc) → Result Failure (Option Resolution)
  without_machine listing facts (some g) = wrap (group_only facts g)
  without_machine listing facts none = fall_back listing facts (fallback_for listing facts)

  abbrev pub for_machine :
      Listing Doc → Facts → Option (Candidate Doc) → Result Failure (Option Resolution)
  for_machine listing facts none = without_machine listing facts (best_group listing facts)
  for_machine listing facts (some c) = do
    doc ← map_err broken c.doc
    group ← group_of listing facts c c.control.extends
    wrap (with_group facts c doc group)

  unfoldable pub resolve : Listing Doc → Facts → Result Failure (Option Resolution)
  unfolding group_only machine_only machine_and_group fall_back group_of best_machine best_group
      fallback_for
  resolve listing facts = for_machine listing facts (best_machine listing facts)
