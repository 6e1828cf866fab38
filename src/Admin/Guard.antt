-- ===== src/Admin/Guard.antt =====
-- `AuthGuard` of src/admin.rs. Instants are nanoseconds, and each method takes the time at which
-- it is called; the map is a list of entries with distinct keys.
pub mod Blocks
pub mod Size
use rescriptum.Prelude.{
  ℕ, ◌+◌, ◌-◌, ◌*◌, ◌^◌, Bool, true, false, not, ◌&&◌, ◌||◌, List, [], ◌∷◌, Option, none, some,
  ◌==◌, ltb, leb, if◌then◌else◌, min, length, filter, is_some, max_u32,
}

abbrev pub second : ℕ
second = 1000000000

abbrev pub max_failures : ℕ
max_failures = 5

abbrev pub failure_window : ℕ
failure_window = 60 * second

abbrev pub base_block : ℕ
base_block = 60 * second

abbrev pub max_block : ℕ
max_block = 900 * second

abbrev pub max_tracked : ℕ
max_tracked = 4096

pub record Failures : Type 0 where
  pub count : ℕ
  pub window_started : Option ℕ
  pub blocked_until : Option ℕ
  pub blocks : ℕ

abbrev pub no_failures : Failures
no_failures = record { count = 0; window_started = none; blocked_until = none; blocks = 0 }

abbrev pub Entries : Type 0
Entries = List (ℕ × Failures)

unfoldable pub get : ℕ → Entries → Option Failures
get ip [] = none
get ip ((i, f) ∷ m) = if i == ip then some f else get ip m

unfoldable pub put : ℕ → Failures → Entries → Entries
put ip f [] = (ip, f) ∷ []
put ip f ((i, g) ∷ m) = if i == ip then (i, f) ∷ m else (i, g) ∷ put ip f m

unfoldable pub remove : ℕ → Entries → Entries
remove ip [] = []
remove ip ((i, g) ∷ m) = if i == ip then remove ip m else (i, g) ∷ remove ip m

-- how much longer, of an entry
abbrev pub left_of : ℕ → Option ℕ → Option ℕ
left_of now none = none
left_of now (some until) = if ltb now until then some (until - now) else none

abbrev pub blocked_entry : ℕ → Option Failures → Option ℕ
blocked_entry now none = none
blocked_entry now (some f) = left_of now f.blocked_until

unfoldable pub blocked : Entries → ℕ → ℕ → Option ℕ
unfolding get
blocked entries now ip = blocked_entry now (get ip entries)

-- the entries that `retain` keeps
abbrev in_window : ℕ → Option ℕ → Bool
in_window now none = false
in_window now (some started) = ltb (now - started) failure_window

abbrev pub is_live : ℕ → ℕ × Failures → Bool
is_live now (ip, f) = is_some (left_of now f.blocked_until) || in_window now f.window_started

unfoldable pub sweep : ℕ → Entries → Entries
sweep now entries =
    if leb max_tracked (length entries) then filter (is_live now) entries else entries

-- one more failure, in the running window or as the first of a new one
unfoldable pub counted : ℕ → Failures → Failures
counted now f =
    if in_window now f.window_started
    then record f { count = f.count + 1 }
    else record f { window_started = some now; count = 1 }

-- the lockout that an entry earns, doubling up to the cap
unfoldable pub block_for : ℕ → ℕ
block_for blocks = min (base_block * 2 ^ min blocks 4) max_block

abbrev default_entry : Option Failures → Failures
default_entry none = no_failures
default_entry (some f) = f

unfoldable pub punish : ℕ → Failures → Failures × Option ℕ
unfolding block_for
punish now f =
    if leb max_failures f.count
    then (
      record {
        count = 0;
        window_started = none;
        blocked_until = some (now + block_for f.blocks);
        blocks = min (f.blocks + 1) max_u32;
      },
      some (block_for f.blocks),
    )
    else (f, none)

unfoldable pub failure : Entries → ℕ → ℕ → Entries × Option ℕ
unfolding get put sweep counted punish
failure entries now ip =
    let swept = sweep now entries in
    let (entry, earned) = punish now (counted now (default_entry (get ip swept))) in
    if leb max_tracked (length swept) && not (is_some (get ip swept))
    then (swept, none)
    else (put ip entry swept, earned)

abbrev pub cleared : Failures → Failures
cleared f = record f { count = 0; window_started = none }

abbrev forgive : Entries → ℕ → ℕ → Option Failures → Entries
forgive entries now ip none = entries
forgive entries now ip (some f) =
    if is_some (left_of now f.blocked_until) then put ip (cleared f) entries else remove ip entries

unfoldable pub success : Entries → ℕ → ℕ → Entries
unfolding get put remove
success entries now ip = forgive entries now ip (get ip entries)
