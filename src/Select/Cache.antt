-- ===== src/Select/Cache.antt =====
-- `Answers::listing` and `invalidate` of src/select.rs: the listing between requests. The store
-- and the clock are arguments: its version, its snapshot, and the nanoseconds since the start.
pub mod Fresh
pub mod Runs
use rescriptum.Prelude.{
  ℕ, ◌+◌, ◌-◌, ◌*◌, ◌^◌, Bool, true, false, ◌&&◌, Option, none, some, Str, if◌then◌else◌, ltb,
  str_eq, is_some,
}
use rescriptum.Prelude.Result.{Result, ok, err}
use rescriptum.Select.Docs.{Docs}
use rescriptum.Select.Listing.{Snapshot, Listing}
use rescriptum.Select.Build.Whole.{build}

-- one second
abbrev pub reload_backstop : ℕ
reload_backstop = 1000000000

pub record Cached (Doc : Type 0) : Type 0 where
  pub version : Option Str
  pub loaded_at : ℕ
  pub listing : Listing Doc

-- `==` on versions
abbrev pub version_eq : Option Str → Option Str → Bool
version_eq none none = true
version_eq (some a) (some b) = str_eq a b
version_eq none (some b) = false
version_eq (some a) none = false

abbrev pub is_fresh : {Doc : Type 0} → Cached Doc → Option Str → ℕ → Bool
is_fresh cached version now =
    version_eq cached.version version
    && is_some version
    && ltb (now - cached.loaded_at) reload_backstop

module _ (D : Docs) where
  open D use {Doc}

  abbrev pub Cache : Type 0
  Cache = Option (Cached Doc)

  -- read the store again, and keep what was read
  unfoldable pub reload :
      Cache → Option Str → ℕ → Result Str Snapshot → Result Str (Listing Doc) × Cache
  unfolding build
  reload cache version now (err e) = (err e, cache)
  reload cache version now (ok snapshot) =
      let listing = build D snapshot in
      (ok listing, some (record { version = version; loaded_at = now; listing = listing }))

  unfoldable pub listing :
      Cache → Option Str → ℕ → Result Str Snapshot → Result Str (Listing Doc) × Cache
  unfolding reload
  listing none version now snapshot = reload none version now snapshot
  listing (some cached) version now snapshot =
      if is_fresh cached version now
      then (ok cached.listing, some cached)
      else reload (some cached) version now snapshot

  unfoldable pub invalidate : Cache → Cache
  invalidate cache = none
