-- ===== src/Select/Cache/Fresh.antt =====
-- Equality of the versions of a kept listing (src/select.rs), and the listing after a change.
use rescriptum.Prelude.{ℕ, true, Option, none, some, Str, str_eq_iff, ◌≡◌, refl, ap}
use rescriptum.Prelude.Result.{ok}
use rescriptum.Select.Docs.{Docs}
use rescriptum.Select.Listing.{Snapshot}
use rescriptum.Select.Build.Whole.{build}
use rescriptum.Select.Cache.{version_eq, Cache, listing, invalidate}

pub version_eq_iff : (a b : Option Str) → version_eq a b ≡ true → a ≡ b
version_eq_iff none none h = refl
version_eq_iff none (some b) h = cc
version_eq_iff (some a) none h = cc
version_eq_iff (some a) (some b) h = ap some ((str_eq_iff a b).0 h)

-- After a change to the store, whatever was kept and whatever version the store reports, the next
-- listing is the one of the new contents, and it is what the cache then holds.
pub listing-invalidate :
    (D : Docs) (cache : Cache D) (version : Option Str) (now : ℕ) (s : Snapshot)
    → listing D (invalidate D cache) version now (ok s)
      ≡ (ok (build D s), some (record { version = version; loaded_at = now; listing = build D s }))
unfolding listing invalidate
listing-invalidate D cache version now s = refl
