-- ===== src/Select/Listing.antt =====
-- The records of src/select.rs and of the store's snapshot (src/store/mod.rs). A problem or a
-- failure is a value that carries what its message names.
use rescriptum.Prelude.{Bool, List, Option, Str}
use rescriptum.Prelude.Result.{Result}
use rescriptum.Format.{Kind}
use rescriptum.Format.Control.{Control}

pub record MachineEntry : Type 0 where
  pub id : Str
  pub format : Str
  pub body : Str
  pub origin : Str

pub record GroupEntry : Type 0 where
  pub name : Str
  pub format : Str
  pub body : Str
  pub origin : Str

pub record FallbackEntry : Type 0 where
  pub format : Str
  pub body : Str
  pub origin : Str

pub data Problem : Type 0 where
  -- what the store reported, or a parse error
  reported : Str → Problem
  unknown_format : Str → Str → Problem
  cycle : Str → Str → Problem
  unknown_parent : Str → Str → Problem
  mixed_kinds : Str → Kind → Str → Kind → Problem
  merge_failed : Str → Str → Problem
  machine_unknown_parent : Str → Str → Problem
  fallback_unknown_parent : Str → Str → Problem

pub record Snapshot : Type 0 where
  pub machines : List MachineEntry
  pub groups : List GroupEntry
  pub fallbacks : List FallbackEntry
  pub problems : List Problem

pub record Candidate (Doc : Type 0) : Type 0 where
  pub id : Str
  pub format : Str
  pub identity : List Str
  pub kind : Kind
  pub doc : Result Str Doc
  pub control : Control

pub record Group (Doc : Type 0) : Type 0 where
  pub name : Str
  pub format : Str
  pub has_placeholders : Bool
  pub origin : Str
  pub kind : Kind
  pub identity : List Str
  pub control : Control
  pub merged : Doc
  pub rendered : Str

pub record Fallback (Doc : Type 0) : Type 0 where
  pub format : Str
  pub kind : Kind
  pub doc : Result Str Doc

pub record Listing (Doc : Type 0) : Type 0 where
  pub candidates : List (Candidate Doc)
  pub groups : List (Group Doc)
  pub fallbacks : List (Fallback Doc)
  pub problems : List Problem

pub record Resolution : Type 0 where
  pub body : Str
  pub content_type : Str
  pub machine : Option Str
  pub group : Option Str
  pub used_default : Bool
  pub format : Kind
  pub format_name : Str

pub data Failure : Type 0 where
  broken : Str → Failure
  machine_extends_unknown : Str → Str → Failure
  default_extends_unknown : Str → Failure
  machine_over_group : Str → Str → Str → Failure
  default_over_group : Str → Str → Failure
  not_filled : Str → Failure
