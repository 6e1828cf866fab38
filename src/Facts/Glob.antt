-- ===== src/Facts/Glob.antt =====
-- `glob` of src/facts.rs: the matcher by iterative backtracking, on indices.
pub mod Wild
pub mod Correct
use rescriptum.Prelude.{
  ℕ, zero, suc, ◌+◌, ◌*◌, Bool, true, false, ◌||◌, [], ◌∷◌, Option, none, some, Str, ◌==◌,
  if◌then◌else◌, get_elem?, get_or_else, length, drop,
}

-- the four variables of the loop
pub record Cursor : Type 0 where
  pub pi : ℕ
  pub ti : ℕ
  pub star : Option ℕ
  pub resume : ℕ

pub data Step : Type 0 where
  done : Bool → Step
  next : Cursor → Step

-- the last loop: only stars may be left of the pattern
pub only_stars : Str → Bool
only_stars [] = true
only_stars (q ∷ p) = if q == b'*' then only_stars p else false

-- `else if let Some(s) = star`
unfoldable pub backtrack : Option ℕ → Cursor → Step
backtrack none k = done false
backtrack (some s) k =
    next (record { pi = suc s; ti = suc k.resume; star = some s; resume = suc k.resume })

-- one round at a character `c` of the text, `q` the pattern's character, if there is one
unfoldable pub at_char : Option ℕ → ℕ → Cursor → Step
unfolding backtrack
at_char none c k = backtrack k.star k
at_char (some q) c k =
    if q == b'?' || q == c
    then next (record k { pi = suc k.pi; ti = suc k.ti })
    else if q == b'*'
    then next (record k { pi = suc k.pi; star = some k.pi; resume = k.ti })
    else backtrack k.star k

unfoldable pub glob_step : Option ℕ → Str → Cursor → Step
unfolding only_stars at_char
glob_step none p k = done (only_stars (drop k.pi p))
glob_step (some c) p k = at_char (get_elem? p k.pi) c k

-- the loop; `none` means that the fuel ran out
unfoldable pub glob_loop : ℕ → Str → Str → Cursor → Option Bool
glob_loop zero p t k = none
glob_loop (suc fuel) p t k = elim (glob_step (get_elem? t k.ti) p k) [
  | done b ↦ some b
  | next k' ↦ glob_loop fuel p t k'
]

abbrev pub start : Cursor
start = record { pi = 0; ti = 0; star = none; resume = 0 }

-- every backtrack moves `resume` on, and between two of them `pi` grows
abbrev pub rounds : Str → Str → ℕ
rounds p t = length t * (length p + 1) + length p + 1

unfoldable pub glob : Str → Str → Bool
unfolding glob_loop glob_step
glob p t = get_or_else (glob_loop (rounds p t) p t start) false
