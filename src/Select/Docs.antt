-- ===== src/Select/Docs.antt =====
-- What src/select.rs uses of an answer document (`Doc` of src/format/mod.rs), as an interface: the
-- resolution is the same for every format.
use rescriptum.Prelude.{Bool, Option, Str}
use rescriptum.Prelude.Result.{Result}
use rescriptum.Format.{Kind}
use rescriptum.Format.Control.{Control}

pub record Docs : Type 1 where
  pub Doc : Type 0
  -- kind, body, origin
  pub parse : Kind → Str → Str → Result Str Doc
  -- the lower layer, the upper one
  pub merge : Doc → Doc → Result Str Doc
  pub control : Doc → Control
  pub strip_control : Doc → Doc
  pub render : Doc → Str
  pub has_placeholders : Doc → Bool
  pub substitute : (Str → Option Str) → Doc → Result Str Doc
