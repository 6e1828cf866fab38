-- ===== src/Select/Cache/Runs.antt =====
-- How old a served listing can be, over a run of requests and changes (src/select.rs).
use rescriptum.Prelude.{
  ℕ, ◌+◌, ◌<◌, true, List, [], ◌∷◌, Option, none, some, Str, is_some, ◌≡◌, refl, arith, inl, inr,
  Bool-cases,
}
use mathlib.Core.Path.{subst}
use rescriptum.Prelude.Result.{Result, ok, err}
use rescriptum.Select.Docs.{Docs}
use rescriptum.Select.Listing.{Snapshot, Listing}
use rescriptum.Select.Build.Whole.{build}
use rescriptum.Select.Cache.{reload_backstop, is_fresh, Cache, reload, listing, invalidate}
use rescriptum.Select.Cache.Fresh.{version_eq_iff}

-- What happens to the cache: a request for the listing, with the version that the store reports, the
-- time, and what a snapshot would give; and a call of `invalidate`, which a change makes.
pub data Event : Type 0 where
  asked : Option Str → ℕ → Result Str Snapshot → Event
  changed : Event

-- Of a history with the newest event first: a request at the time with the version found these
-- contents, and nothing has changed since.
pub data Since : List Event → Option Str → ℕ → Snapshot → Type 0 where
  here :
      (version : Option Str) (time : ℕ) (s : Snapshot) (events : List Event)
      → Since (asked version time (ok s) ∷ events) version time s
  before :
      (v : Option Str) (n : ℕ) (r : Result Str Snapshot) {events : List Event}
      {version : Option Str} {time : ℕ} {s : Snapshot}
      → Since events version time s
      → Since (asked v n r ∷ events) version time s

module _ (D : Docs) where
  open D use {Doc}

  -- the cache after a history
  unfoldable pub after : List Event → Cache D
  unfolding listing invalidate
  after [] = none
  after (asked version now r ∷ events) = (listing D (after events) version now r).1
  after (changed ∷ events) = invalidate D (after events)

  -- what is kept was built from the contents that a request found, at the time and with the version
  -- that are kept with it
  abbrev Sound : List Event → Cache D → Type 0
  Sound events none = Unit {0}
  Sound events (some c) =
      (s : Snapshot) × Since events c.version c.loaded_at s × (c.listing ≡ build D s)

  Sound-asked :
      (events : List Event) (cache : Cache D) (v : Option Str) (n : ℕ) (r : Result Str Snapshot)
      → Sound events cache
      → Sound (asked v n r ∷ events) cache
  Sound-asked events none v n r h = tt
  Sound-asked events (some c) v n r (s, since, e) = (s, before v n r since, e)

  Sound-reload :
      (events : List Event) (cache : Cache D) (v : Option Str) (n : ℕ) (r : Result Str Snapshot)
      → Sound events cache
      → Sound (asked v n r ∷ events) (reload D cache v n r).1
  unfolding reload
  Sound-reload events cache v n (err e) h = Sound-asked events cache v n (err e) h
  Sound-reload events cache v n (ok s) h = (s, here v n s events, refl)

  Sound-listing :
      (events : List Event) (cache : Cache D) (v : Option Str) (n : ℕ) (r : Result Str Snapshot)
      → Sound events cache
      → Sound (asked v n r ∷ events) (listing D cache v n r).1
  unfolding listing
  Sound-listing events none v n r h = Sound-reload events none v n r h
  Sound-listing events (some c) v n r h = elim (Bool-cases (is_fresh c v n)) [
    | inl fresh ↦ rw fresh (Sound-asked events (some c) v n r h)
    | inr stale ↦ rw stale (Sound-reload events (some c) v n r h)
  ]

  after-Sound : (events : List Event) → Sound events (after events)
  unfolding after invalidate
  after-Sound [] = tt
  after-Sound (asked v n r ∷ events) =
      Sound-listing events (after events) v n r (after-Sound events)
  after-Sound (changed ∷ events) = tt

  -- what a served listing can be
  pub data Served (events : List Event) (version : Option Str) (now : ℕ) (r : Result Str Snapshot)
      (l : Listing Doc) : Type 0 where
    built_now : (s : Snapshot) → r ≡ ok s → l ≡ build D s → Served events version now r l
    built_before :
        (time : ℕ) (s : Snapshot)
        → Since events version time s
        → is_some version ≡ true
        → now < time + reload_backstop
        → l ≡ build D s
        → Served events version now r l

  reload-Served :
      (events : List Event) (cache : Cache D) (version : Option Str) (now : ℕ)
      (r : Result Str Snapshot) {l : Listing Doc}
      → (reload D cache version now r).0 ≡ ok l
      → Served events version now r l
  unfolding reload
  reload-Served events cache version now (err e) {l} h = cc
  reload-Served events cache version now (ok s) {l} h = built_now s refl (cc)

  listing-cached :
      (events : List Event) (cache : Cache D) (version : Option Str) (now : ℕ)
      (r : Result Str Snapshot) {l : Listing Doc}
      → Sound events cache
      → (listing D cache version now r).0 ≡ ok l
      → Served events version now r l
  unfolding listing
  listing-cached events none version now r {l} sound h = reload-Served events none version now r h
  listing-cached events (some c) version now r {l} (s, since, e) h =
      elim (Bool-cases (is_fresh c version now)) [
        | inr stale ↦ reload-Served events (some c) version now r (rw stale at h)
        | inl fresh ↦
            let same : ok c.listing ≡ ok l = rw fresh at h in
            built_before c.loaded_at s
              (subst (λ v. Since events v c.loaded_at s)
                (version_eq_iff c.version version (ground (arith, fresh))) since)
              (ground (arith, fresh)) (ground (arith, fresh)) (cc)
      ]

  -- Whatever requests and changes came before, a listing that is served is the build of what the
  -- store holds now, or of what an earlier request found there, less than a second before, at the
  -- very version that the store reports now, and with no call of `invalidate` since.
  pub listing-Served :
      (events : List Event) (version : Option Str) (now : ℕ) (r : Result Str Snapshot)
      {l : Listing Doc}
      → (listing D (after events) version now r).0 ≡ ok l
      → Served events version now r l
  listing-Served events version now r {l} h =
      listing-cached events (after events) version now r (after-Sound events) h
