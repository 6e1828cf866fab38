-- ===== src/Tests/Stores.antt =====
-- Inputs for the selection of answers and for the administration.
use rescriptum.Prelude.{
  none, true, replicate, ℕ, ◌≤◌, ◌<◌, ◌*◌, Bool, true, false, List, [], ◌∷◌, ◌++◌, some, Str, codes,
  ◌≡◌, refl, arith, ◌⊎◌, inl, str_ltb, contains, if◌then◌else◌, filter, str_eq, not, ◌&&◌, ◌==◌,
}
use rescriptum.Prelude.Result.{Result, ok, err}
use rescriptum.Facts.Labels.{Facts, values}
use rescriptum.Format.{toml}
use rescriptum.Format.Control.{Control, no_control}
use rescriptum.Select.Docs.{Docs}
use rescriptum.Select.Listing.{Candidate, Group, Listing, Snapshot, MachineEntry}
use rescriptum.Select.Score.{best_machine, best_group}
use rescriptum.Select.Score.Best.{
  machine_score, machine_accepted, group_score, group_accepted, best_machine-outranks,
}
use rescriptum.Select.Build.Chain.{Parsed, walk_from}
use rescriptum.Select.Build.Chain.Ends.{IsEnded, walk_from-IsEnded}
use rescriptum.Select.Build.Whole.{build}
use rescriptum.Select.Cache.{listing}
use rescriptum.Select.Cache.Runs.{Event, asked, Served, after, listing-Served}
use rescriptum.Installed.Token
use rescriptum.Installed.Token.Padding.{constant_time_eq_padded}
use rescriptum.Admin.Guard.{base_block, max_block, Entries, blocked, failure, success, second}
use rescriptum.Admin.Guard.Blocks.{blocked-success, blocked-failure}
use rescriptum.Admin.Write.{Slot, machine, Store, problems, guarded, put_document}
use rescriptum.Admin.Write.Refused.{is_refusal, put_document-refused}

-- Documents that are their own text: `!` makes one malformed, and a first line names the parent.
abbrev control_of : Str → Control
control_of [] = no_control
control_of (c ∷ text) =
    if c == b'^' then record { extends = some text; members = []; matchers = [] } else no_control

abbrev parse_text : Str → Result Str Str
parse_text text = if contains text (codes "!") then err (codes "malformed") else ok text

abbrev pub texts : Docs
texts = record {
  Doc = Str;
  parse = λ kind body origin. parse_text body;
  merge = λ lower upper. ok (lower ++ upper);
  control = control_of;
  strip_control = λ d. d;
  render = λ d. d;
  has_placeholders = λ d. false;
  substitute = λ lookup d. ok d;
}

abbrev facts : Facts
facts = record { labels = []; haystack = codes "aabb" }

abbrev candidate : Str → Str → Candidate Str
candidate id needle = record {
  id = id;
  format = codes "toml";
  identity = needle ∷ [];
  kind = toml;
  doc = ok [];
  control = no_control;
}

abbrev group : Str → Str → Group Str
group name needle = record {
  name = name;
  format = codes "toml";
  has_placeholders = false;
  origin = name;
  kind = toml;
  identity = needle ∷ [];
  control = no_control;
  merged = [];
  rendered = [];
}

abbrev offered : Listing Str
offered = record {
  candidates = candidate (codes "b") (codes "bb") ∷ candidate (codes "a") (codes "aa") ∷ [];
  groups = group (codes "y") (codes "b") ∷ group (codes "x") (codes "a") ∷ [];
  fallbacks = [];
  problems = [];
}

first_wins : best_machine offered facts ≡ some (candidate (codes "a") (codes "aa"))
unfolding best_machine values
first_wins = refl

accepted_b : machine_accepted facts (candidate (codes "b") (codes "bb")) ≡ true
unfolding best_machine values
accepted_b = refl

score_b : machine_score facts (candidate (codes "b") (codes "bb")) ≡ some 1000
unfolding best_machine values
score_b = refl

best_machine-outranks_example :
    (s : ℕ) × (machine_score facts (candidate (codes "a") (codes "aa")) ≡ some s)
    × ((1000 < s) ⊎ ((1000 ≡ s) × (str_ltb (codes "b") (codes "a") ≡ false)))
best_machine-outranks_example =
    best_machine-outranks offered facts (candidate (codes "b") (codes "bb")) first_wins (inl refl)
      accepted_b score_b

x_wins : best_group offered facts ≡ some (group (codes "x") (codes "a"))
unfolding best_group values
x_wins = refl

accepted_y : group_accepted facts (group (codes "y") (codes "b")) ≡ true
unfolding best_group values
accepted_y = refl

score_y : group_score facts (group (codes "y") (codes "b")) ≡ some 1000
unfolding best_group values
score_y = refl

-- two groups that extend each other
abbrev parsed : Str → Str → Parsed Str
parsed name doc = record {
  name = name;
  format = codes "toml";
  origin = name;
  kind = toml;
  doc = doc;
}

abbrev circle : List (Parsed Str)
circle = parsed (codes "p") (codes "^q") ∷ parsed (codes "q") (codes "^p") ∷ []

walk_from-IsEnded_example : IsEnded (walk_from texts circle (parsed (codes "p") (codes "^q")))
walk_from-IsEnded_example = walk_from-IsEnded texts circle (parsed (codes "p") (codes "^q"))

abbrev stocked : Snapshot
stocked = record {
  machines =
      record { id = codes "m"; format = codes "toml"; body = codes "x"; origin = codes "m" } ∷ [];
  groups = [];
  fallbacks = [];
  problems = [];
}

-- a request a millionth of a second ago
abbrev history : List Event
history = asked (some (codes "1")) 5 (ok stocked) ∷ []

served_again :
    (listing texts (after texts history) (some (codes "1")) 1005 (err (codes "gone"))).0
    ≡ ok (build texts stocked)
unfolding listing after
served_again = refl

listing-Served_example :
    Served texts history (some (codes "1")) 1005 (err (codes "gone")) (build texts stocked)
listing-Served_example =
    listing-Served texts history (some (codes "1")) 1005 (err (codes "gone")) served_again

abbrev locked : Entries
locked =
    (
      10,
      record { count = 3; window_started = some 0; blocked_until = some (60 * second); blocks = 1 },
    )
    ∷ []

blocked-success_example : blocked (success locked 7 10) 7 10 ≡ blocked locked 7 10
blocked-success_example = blocked-success locked 7 10 10

-- four failures in the running window
abbrev strained : Entries
strained =
    (10, record { count = 4; window_started = some 5; blocked_until = none; blocks = 2 }) ∷ []

fifth : (failure strained 7 10).1 ≡ some (240 * second)
unfolding failure
fifth = refl

blocked-failure_example :
    (blocked (failure strained 7 10).0 7 10 ≡ some (240 * second))
    × (base_block ≤ 240 * second)
    × (240 * second ≤ max_block)
blocked-failure_example = blocked-failure strained 7 10 fifth

-- a store of machine documents; it cannot be read while a body is `?`
abbrev is_other : Str → Str → MachineEntry → Bool
is_other id format m = not (str_eq m.id id && str_eq m.format format)

abbrev without : Slot → Str → List MachineEntry → List MachineEntry
without (machine id) format ms = filter (is_other id format) ms
without (Slot.group _) format ms = ms
without Slot.fallback format ms = ms

abbrev entry : Str → Str → Str → MachineEntry
entry id format body = record { id = id; format = format; body = body; origin = id }

abbrev put_in : Slot → Str → Str → List MachineEntry → List MachineEntry
put_in (machine id) format body ms = entry id format body ∷ without (machine id) format ms
put_in (Slot.group _) format body ms = ms
put_in Slot.fallback format body ms = ms

abbrev snapshot_of : List MachineEntry → Result Str Snapshot
snapshot_of [] = ok (record { machines = []; groups = []; fallbacks = []; problems = [] })
snapshot_of (m ∷ ms) =
    if str_eq m.body (codes "?")
    then err (codes "unreadable")
    else ok (record { machines = m ∷ ms; groups = []; fallbacks = []; problems = [] })

abbrev shelf : Store
shelf = record {
  State = List MachineEntry;
  snapshot = snapshot_of;
  put = λ slot format body s. (ok tt, put_in slot format body s);
  delete = λ slot format s. (ok true, without slot format s);
}

abbrev on_shelf : List MachineEntry
on_shelf = entry (codes "m") (codes "toml") (codes "x") ∷ []

-- a dangling parent is undone
undone_again :
    (guarded texts shelf (machine (codes "m")) (codes "toml") (some (codes "^nowhere")) on_shelf).0
    ≡ on_shelf
unfolding guarded
undone_again = refl

refused_name :
    is_refusal
      (put_document texts shelf (machine (codes "..")) (codes "toml") (some (codes "x")) on_shelf).1
    ≡ true
unfolding put_document
refused_name = refl

put_document-refused_example :
    (put_document texts shelf (machine (codes "..")) (codes "toml") (some (codes "x")) on_shelf).0
    ≡ on_shelf
put_document-refused_example =
    put_document-refused texts shelf (machine (codes "..")) (codes "toml") (some (codes "x"))
      on_shelf refused_name

readable : problems texts shelf on_shelf ≡ ok []
unfolding problems
readable = refl

unreadable :
    problems texts shelf (entry (codes "m") (codes "toml") (codes "?") ∷ [])
    ≡ err (codes "unreadable")
unfolding problems
unreadable = refl

constant_time_eq_padded_example :
    Token.constant_time_eq (codes "secret" ++ replicate 256 0) (codes "secret") ≡ true
constant_time_eq_padded_example =
    constant_time_eq_padded (codes "secret") (ground arith) (ground arith)
