-- ===== src/Boot/Tftp/Admission.antt =====
-- The admission of requests in `serve` of src/boot/tftp.rs: the global cap, the cap for each peer,
-- and what is given back when a transfer ends.
pub mod Invariant
use rescriptum.Prelude.{
  ℕ, ◌+◌, ◌-◌, Bool, true, false, not, ◌&&◌, List, [], ◌∷◌, Option, none, some, Bytes, ◌==◌, leb,
  if◌then◌else◌, length, get_or_else,
}
use rescriptum.Boot.Tftp.Packet.{op_rrq, u16_of}

abbrev pub max_transfers : ℕ
max_transfers = 64

abbrev pub max_per_peer : ℕ
max_per_peer = 8

-- a transfer in flight: its peer's address, and whether it took a slot of that peer
pub record Transfer : Type 0 where
  pub ip : ℕ
  pub is_read : Bool

abbrev pub Counts : Type 0
Counts = List (ℕ × ℕ)

pub record State : Type 0 where
  pub active : List Transfer
  pub per_peer : Counts

pub data Answer : Type 0 where
  not_unicast not_allowed at_max at_max_for_peer started : Answer

unfoldable pub count_of : ℕ → Counts → ℕ
count_of ip [] = 0
count_of ip ((i, n) ∷ m) = if i == ip then n else count_of ip m

-- `*counts.entry(ip).or_insert(0) += 1`
unfoldable pub increment : ℕ → Counts → Counts
increment ip [] = (ip, 1) ∷ []
increment ip ((i, n) ∷ m) = if i == ip then (i, n + 1) ∷ m else (i, n) ∷ increment ip m

-- the end of a read: one less, and no entry at zero
unfoldable pub decrement : ℕ → Counts → Counts
decrement ip [] = []
decrement ip ((i, n) ∷ m) =
    if i == ip then (if n - 1 == 0 then m else (i, n - 1) ∷ m) else (i, n) ∷ decrement ip m

abbrev pub asks_to_read : Bytes → Bool
asks_to_read (a ∷ b ∷ _) = u16_of a b == op_rrq
asks_to_read _ = false

abbrev admit : State → ℕ → Bool → State × Answer
admit s ip true = if leb max_per_peer (count_of ip s.per_peer) then (s, at_max_for_peer) else (
  record {
    active = record { ip = ip; is_read = true } ∷ s.active;
    per_peer = increment ip s.per_peer;
  },
  started,
)
admit s ip false = (record s { active = record { ip = ip; is_read = false } ∷ s.active }, started)

-- One round of the loop on a datagram of the address `ip`. The tests on the address are arguments:
-- whether it is broadcast, multicast or unspecified, and whether the allowlist admits it.
unfoldable pub receive : (ℕ → Bool) → (ℕ → Bool) → State → ℕ → Bytes → State × Answer
unfolding count_of increment
receive is_broadcastish allowed s ip request =
    if is_broadcastish ip
    then (s, not_unicast)
    else if not (allowed ip)
    then (s, not_allowed)
    else if leb max_transfers (length s.active)
    then (s, at_max)
    else admit s ip (asks_to_read request)

-- the n-th transfer in flight ends
abbrev pub without : {T : Type 0} → ℕ → List T → List T
without n [] = []
without ℕ.zero (t ∷ ts) = ts
without (ℕ.suc n) (t ∷ ts) = t ∷ without n ts

abbrev release : Counts → Transfer → Counts
release m t = if t.is_read then decrement t.ip m else m

abbrev nth : {T : Type 0} → ℕ → List T → Option T
nth n [] = none
nth ℕ.zero (t ∷ ts) = some t
nth (ℕ.suc n) (t ∷ ts) = nth n ts

unfoldable pub end_transfer : ℕ → State → State
unfolding decrement
end_transfer n s = elim (nth n s.active) [
  | none ↦ s
  | some t ↦ record { active = without n s.active; per_peer = release s.per_peer t }
]

abbrev pub idle : State
idle = record { active = []; per_peer = [] }
