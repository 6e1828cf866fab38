-- ===== src/Admin/Write.antt =====
-- `put`, `delete` and `guarded` of src/admin.rs, with `valid_id` and `valid_format` of
-- src/store/mod.rs. The store is a parameter; each read of the problems goes back to it, as the
-- call of `invalidate` makes it do.
pub mod Rollback
pub mod Stored
pub mod Refused
use rescriptum.Prelude.{
  ℕ, Bool, true, false, not, ◌&&◌, ◌||◌, List, [], ◌∷◌, Option, none, some, Str, Bytes, ◌==◌, codes,
  leb, if◌then◌else◌, str_eq, any, all, find, filter, is_empty, is_some, contains,
  is_ascii_alphanumeric, length,
}
use rescriptum.Prelude.Result.{Result, ok, err}
use rescriptum.Prelude.Utf8.{encode, from_utf8}
use rescriptum.Format
use rescriptum.Format.{Kind, for_extension}
use rescriptum.Select.Docs.{Docs}
use rescriptum.Select.Listing.{
  MachineEntry, GroupEntry, FallbackEntry, Problem, reported, unknown_format, cycle, unknown_parent,
  mixed_kinds, merge_failed, machine_unknown_parent, fallback_unknown_parent, Snapshot,
}
use rescriptum.Select.Build.Whole.{build}

-- which document is written: `Kind` and the identifier
pub data Slot : Type 0 where
  machine group : Str → Slot
  fallback : Slot

-- `StoreWrite`: every operation gives its result and the store behind it.
pub record Store : Type 1 where
  pub State : Type 0
  pub snapshot : State → Result Str Snapshot
  pub put : Slot → Str → Str → State → Result Str (Unit {0}) × State
  pub delete : Slot → Str → State → Result Str Bool × State

pub data Reply : Type 0 where
  too_large not_utf8 invalid_id not_found : Reply
  invalid_format internal rejected : Str → Reply
  conflict : List Problem → Reply
  stored deleted : List Problem → Reply

unfoldable pub valid_id : Str → Bool
valid_id id =
    not (is_empty id)
    && leb (length (encode id)) 128
    && not (str_eq id (codes "."))
    && not (str_eq id (codes ".."))
    && not (contains id (codes ".."))
    && all (λ c. is_ascii_alphanumeric c || c == b'-' || c == b'_' || c == b'.' || c == b':') id

unfoldable pub valid_format : Str → Bool
unfolding for_extension
valid_format format = is_some (for_extension format)

-- Two problems have the same message.
abbrev parts : Problem → List Str
parts (reported e) = codes "reported" ∷ e ∷ []
parts (unknown_format w f) = codes "format" ∷ w ∷ f ∷ []
parts (cycle n c) = codes "cycle" ∷ n ∷ c ∷ []
parts (unknown_parent n c) = codes "parent" ∷ n ∷ c ∷ []
parts (mixed_kinds n k c l) = codes "kinds" ∷ n ∷ Format.label k ∷ c ∷ Format.label l ∷ []
parts (merge_failed n e) = codes "merge" ∷ n ∷ e ∷ []
parts (machine_unknown_parent i p) = codes "machine" ∷ i ∷ p ∷ []
parts (fallback_unknown_parent w p) = codes "fallback" ∷ w ∷ p ∷ []

abbrev parts_eq : List Str → List Str → Bool
parts_eq [] [] = true
parts_eq (a ∷ as_) (b ∷ bs) = str_eq a b && parts_eq as_ bs
parts_eq [] (b ∷ bs) = false
parts_eq (a ∷ as_) [] = false

unfoldable pub same_problem : Problem → Problem → Bool
unfolding Format.label
same_problem p q = parts_eq (parts p) (parts q)

-- the problems that were not there before
unfoldable pub introduced : List Problem → List Problem → List Problem
unfolding same_problem
introduced before after = filter (λ p. not (any (λ q. same_problem q p) before)) after

abbrev body_of_machine : Option MachineEntry → Option Str
body_of_machine none = none
body_of_machine (some m) = some m.body

abbrev body_of_group : Option GroupEntry → Option Str
body_of_group none = none
body_of_group (some g) = some g.body

abbrev body_of_fallback : Option FallbackEntry → Option Str
body_of_fallback none = none
body_of_fallback (some d) = some d.body

-- what was there before; its format is the one that was asked for
unfoldable pub previous_body : Slot → Str → Snapshot → Option Str
previous_body (machine id) format s =
    body_of_machine (find (λ m. str_eq m.id id && str_eq m.format format) s.machines)
previous_body (group name) format s =
    body_of_group (find (λ g. str_eq g.name name && str_eq g.format format) s.groups)
previous_body fallback format s = body_of_fallback (find (λ d. str_eq d.format format) s.fallbacks)

abbrev is_fallback : Slot → Bool
is_fallback (machine _) = false
is_fallback (group _) = false
is_fallback fallback = true

abbrev id_of : Slot → Str
id_of (machine id) = id
id_of (group name) = name
id_of fallback = []

module _ (D : Docs) (S : Store) where
  open D use {parse}
  open S use {State, snapshot, put, delete}

  -- `invalidate` and `problems`
  unfoldable pub problems : State → Result Str (List Problem)
  unfolding build
  problems s = elim (snapshot s) [ err e ↦ err e | ok taken ↦ ok (build D taken).problems ]

  abbrev pub existed : Result Str (Unit {0}) × State → Result Str Bool × State
  existed (ok _, s) = (ok true, s)
  existed (err e, s) = (err e, s)

  abbrev pub apply : Slot → Str → Option Str → State → Result Str Bool × State
  apply slot format (some body) s = existed (put slot format body s)
  apply slot format none s = delete slot format s

  -- the undo; its own failure is only logged
  abbrev pub restore : Slot → Str → Option Str → State → State
  restore slot format previous s = (apply slot format previous s).1

  abbrev or_default : Result Str (List Problem) → List Problem
  or_default (ok ps) = ps
  or_default (err _) = []

  abbrev done : Option Str → List Problem → Reply
  done (some _) after = stored after
  done none after = deleted after

  -- after the write: undo it where it brought a problem
  abbrev settle :
      Slot → Str → Option Str → Option Str → List Problem → List Problem → State → State × Reply
  settle slot format body previous after [] s = (s, done body after)
  settle slot format body previous after (p ∷ ps) s =
      (restore slot format previous s, conflict (p ∷ ps))

  abbrev is_deletion : Option Str → Bool
  is_deletion none = true
  is_deletion (some _) = false

  abbrev written :
      Slot → Str → Option Str → Option Str → List Problem → Result Str Bool × State → State × Reply
  written slot format body previous before (err e, s) = (s, rejected e)
  written slot format body previous before (ok there, s) =
      if is_deletion body && not there
      then (s, not_found)
      else (let after = or_default (problems s) in
          settle slot format body previous after (introduced before after) s)

  unfoldable pub guarded : Slot → Str → Option Str → State → State × Reply
  unfolding problems introduced previous_body
  guarded slot format body s = elim (problems s) [
    | err e ↦ (s, internal e)
    | ok before ↦ elim (snapshot s) [
      | err e ↦ (s, internal e)
      | ok taken ↦
          written slot format body (previous_body slot format taken) before
            (apply slot format body s)
    ]
  ]

  abbrev parsed_put : Slot → Str → Str → Option Kind → State → State × Reply
  parsed_put slot format body none s = (s, invalid_format format)
  parsed_put slot format body (some kind) s = elim (parse kind body (codes "document")) [
    | err e ↦ (s, rejected e)
    | ok _ ↦ guarded slot format (some body) s
  ]

  abbrev text_put : Slot → Str → Option Str → State → State × Reply
  text_put slot format none s = (s, not_utf8)
  text_put slot format (some body) s =
      if not (is_fallback slot) && not (valid_id (id_of slot))
      then (s, invalid_id)
      else if not (valid_format format)
      then (s, invalid_format format)
      else parsed_put slot format body (for_extension format) s

  -- the handler: `none` is a body that is too large or unreadable
  unfoldable pub put_document : Slot → Str → Option Bytes → State → State × Reply
  unfolding guarded valid_id valid_format from_utf8
  put_document slot format none s = (s, too_large)
  put_document slot format (some bytes) s = text_put slot format (from_utf8 bytes) s

  unfoldable pub delete_document : Slot → Str → State → State × Reply
  unfolding guarded valid_id
  delete_document slot format s =
      if not (is_fallback slot) && not (valid_id (id_of slot))
      then (s, invalid_id)
      else guarded slot format none s
