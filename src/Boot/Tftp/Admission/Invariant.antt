-- ===== src/Boot/Tftp/Admission/Invariant.antt =====
-- What the admission of requests keeps true.
use rescriptum.Prelude.{
  ℕ, zero, suc, ◌+◌, ◌-◌, ◌≤◌, ◌<◌, Bool, true, false, ◌&&◌, List, [], ◌∷◌, Option, none, some,
  Bytes, ◌==◌, leb, if◌then◌else◌, length, ◌≡◌, ◌≢◌, refl, arith, Bool-cases, inl, inr, ◌∙◌,
}
use mathlib.Core.Path.{subst}
use rescriptum.Boot.Tftp.Admission.{
  max_transfers, max_per_peer, Transfer, Counts, State, count_of, increment, decrement,
  asks_to_read, admit, receive, without, release, nth, end_transfer, idle,
}

-- the entries are positive and their addresses distinct
abbrev pub Tidy : Counts → Type 0
Tidy [] = Unit
Tidy ((i, n) ∷ m) = (0 < n) × (count_of i m ≡ 0) × Tidy m

count_of-increment_same : (ip : ℕ) (m : Counts) → count_of ip (increment ip m) ≡ count_of ip m + 1
unfolding count_of increment
count_of-increment_same ip [] = ground arith
count_of-increment_same ip ((i, n) ∷ m) = ground (arith, count_of-increment_same ip m)

count_of-increment_other :
    (ip j : ℕ) (m : Counts) → ip ≢ j → count_of j (increment ip m) ≡ count_of j m
unfolding count_of increment
count_of-increment_other ip j [] h = ground arith
count_of-increment_other ip j ((i, n) ∷ m) h = ground (arith, count_of-increment_other ip j m h)

count_of-increment :
    (ip j : ℕ) (m : Counts)
    → count_of j (increment ip m) ≡ (if ip == j then count_of j m + 1 else count_of j m)
count_of-increment ip j m = elim (Bool-cases (ip == j)) [
  | inl same ↦
      let e : ip ≡ j = ground arith in
      rw same (
        subst (λ x. count_of x (increment ip m) ≡ count_of x m + 1) e
          (count_of-increment_same ip m))
  | inr other ↦ rw other (count_of-increment_other ip j m (ground arith))
]

increment-Tidy : (ip : ℕ) (m : Counts) → Tidy m → Tidy (increment ip m)
unfolding count_of increment
increment-Tidy ip [] h = (ground arith, refl, tt)
increment-Tidy ip ((i, n) ∷ m) (pos, fresh, h) = elim (Bool-cases (i == ip)) [
  | inl same ↦ rw same (ground arith, fresh, h)
  | inr other ↦
      rw other (pos, count_of-increment_other ip i m (ground arith) ∙ fresh, increment-Tidy ip m h)
]

count_of-decrement_same :
    (ip : ℕ) (m : Counts) → Tidy m → count_of ip (decrement ip m) ≡ count_of ip m - 1
unfolding count_of decrement
count_of-decrement_same ip [] h = ground arith
count_of-decrement_same ip ((i, n) ∷ m) (pos, fresh, h) =
    ground (arith, count_of-decrement_same ip m h)

count_of-decrement_other :
    (ip j : ℕ) (m : Counts) → ip ≢ j → count_of j (decrement ip m) ≡ count_of j m
unfolding count_of decrement
count_of-decrement_other ip j [] h = refl
count_of-decrement_other ip j ((i, n) ∷ m) h = ground (arith, count_of-decrement_other ip j m h)

count_of-decrement :
    (ip j : ℕ) (m : Counts)
    → Tidy m
    → count_of j (decrement ip m) ≡ (if ip == j then count_of j m - 1 else count_of j m)
count_of-decrement ip j m h = elim (Bool-cases (ip == j)) [
  | inl same ↦
      let e : ip ≡ j = ground arith in
      rw same (
        subst (λ x. count_of x (decrement ip m) ≡ count_of x m - 1) e
          (count_of-decrement_same ip m h))
  | inr other ↦ rw other (count_of-decrement_other ip j m (ground arith))
]

decrement-Tidy : (ip : ℕ) (m : Counts) → Tidy m → Tidy (decrement ip m)
unfolding decrement
decrement-Tidy ip [] h = tt
decrement-Tidy ip ((i, n) ∷ m) (pos, fresh, h) = elim (Bool-cases (i == ip)) [
  | inl same ↦ elim (Bool-cases (n - 1 == 0)) [
    | inl last ↦ rw (same, last) h
    | inr more ↦ rw (same, more) (ground arith, fresh, h)
  ]
  | inr other ↦
      rw other (pos, count_of-decrement_other ip i m (ground arith) ∙ fresh, decrement-Tidy ip m h)
]

-- how many reads of the address are in flight
abbrev pub reads_of : ℕ → List Transfer → ℕ
reads_of ip [] = 0
reads_of ip (t ∷ ts) = if t.is_read && t.ip == ip then reads_of ip ts + 1 else reads_of ip ts

-- What holds between two rounds of the loop.
pub record Invariant (s : State) : Type 0 where
  pub in_total : length s.active ≤ max_transfers
  pub counted : (ip : ℕ) → count_of ip s.per_peer ≡ reads_of ip s.active
  pub for_peer : (ip : ℕ) → reads_of ip s.active ≤ max_per_peer
  pub tidy : Tidy s.per_peer

started-Invariant :
    (s : State) (ip : ℕ) (reading : Bool)
    → length s.active < max_transfers
    → Invariant s
    → Invariant (admit s ip reading).0
started-Invariant s ip false room inv = record {
  in_total = ground arith;
  counted = inv.counted;
  for_peer = inv.for_peer;
  tidy = inv.tidy;
}
started-Invariant s ip true room inv =
    elim (Bool-cases (leb max_per_peer (count_of ip s.per_peer))) [
      | inl full ↦ rw full inv
      | inr free ↦ rw free (record {
        in_total = ground arith;
        counted = λ j. ground (arith, count_of-increment ip j s.per_peer, inv.counted j);
        for_peer = λ j. ground (arith, inv.for_peer j, inv.counted j);
        tidy = increment-Tidy ip s.per_peer inv.tidy;
      })
    ]

receive-Invariant :
    (is_broadcastish allowed : ℕ → Bool) (s : State) (ip : ℕ) (request : Bytes)
    → Invariant s
    → Invariant (receive is_broadcastish allowed s ip request).0
unfolding receive
receive-Invariant is_broadcastish allowed s ip request inv =
    elim (Bool-cases (is_broadcastish ip)) [
      | inl a ↦ rw a inv
      | inr a ↦ elim (Bool-cases (allowed ip)) [
        | inr b ↦ rw (a, b) inv
        | inl b ↦ elim (Bool-cases (leb max_transfers (length s.active))) [
          | inl c ↦ rw (a, b, c) inv
          | inr c ↦ rw (a, b, c) (started-Invariant s ip (asks_to_read request) (ground arith) inv)
        ]
      ]
    ]

length-without : (n : ℕ) (ts : List Transfer) → length (without n ts) ≤ length ts
length-without n [] = ground arith
length-without zero (t ∷ ts) = ground arith
length-without (suc n) (t ∷ ts) = ground (arith, length-without n ts)

abbrev counts_for : ℕ → Transfer → ℕ
counts_for ip t = if t.is_read && t.ip == ip then 1 else 0

reads_of-without :
    (ip n : ℕ) (ts : List Transfer) (t : Transfer)
    → nth n ts ≡ some t
    → reads_of ip ts ≡ reads_of ip (without n ts) + counts_for ip t
reads_of-without ip n [] t h = cc
reads_of-without ip zero (u ∷ ts) t h =
    let e : u ≡ t = cc in
    subst (λ x. reads_of ip (u ∷ ts) ≡ reads_of ip ts + counts_for ip x) e (ground arith)
reads_of-without ip (suc n) (u ∷ ts) t h = ground (arith, reads_of-without ip n ts t h)

-- the count after a transfer has ended
count_of-release :
    (m : Counts) (ip : ℕ) (t : Transfer)
    → Tidy m
    → count_of ip (release m t) ≡ count_of ip m - counts_for ip t
count_of-release m ip t h = elim (Bool-cases t.is_read) [
  | inr writing ↦ rw writing (ground arith)
  | inl reading ↦ rw reading (ground (arith, count_of-decrement t.ip ip m h))
]

release-Tidy : (m : Counts) (t : Transfer) → Tidy m → Tidy (release m t)
release-Tidy m t h = elim (Bool-cases t.is_read) [
  | inl reading ↦ rw reading (decrement-Tidy t.ip m h)
  | inr writing ↦ rw writing h
]

ended-Invariant :
    (n : ℕ) (s : State) (t : Transfer)
    → nth n s.active ≡ some t
    → Invariant s
    → Invariant (record { active = without n s.active; per_peer = release s.per_peer t })
ended-Invariant n s t h inv = record {
  in_total = ground (arith, length-without n s.active, inv.in_total);
  counted = λ ip. ground (
    arith,
    reads_of-without ip n s.active t h,
    count_of-release s.per_peer ip t inv.tidy,
    inv.counted ip,
  );
  for_peer = λ ip. ground (arith, reads_of-without ip n s.active t h, inv.for_peer ip);
  tidy = release-Tidy s.per_peer t inv.tidy;
}

end_transfer-Invariant : (n : ℕ) (s : State) → Invariant s → Invariant (end_transfer n s)
unfolding end_transfer
end_transfer-Invariant n s inv = end_of (nth n s.active) refl
  where
    end_of : (o : Option Transfer) → nth n s.active ≡ o → Invariant (end_transfer n s)
    end_of none e = rw (e, end_transfer) inv
    end_of (some t) e = rw (e, end_transfer) (ended-Invariant n s t e inv)

-- The states the loop can be in: from no transfers, by requests and by ends of transfers.
pub data Reached (is_broadcastish allowed : ℕ → Bool) : State → Type 0 where
  from_idle : Reached is_broadcastish allowed idle
  received :
      {s : State} (ip : ℕ) (request : Bytes)
      → Reached is_broadcastish allowed s
      → Reached is_broadcastish allowed (receive is_broadcastish allowed s ip request).0
  ended :
      {s : State} (n : ℕ)
      → Reached is_broadcastish allowed s
      → Reached is_broadcastish allowed (end_transfer n s)

-- In every state that requests and ends of transfers lead to, at most 64 transfers are in flight,
-- at most 8 of them reads of one address, and the count kept for an address is exactly the number
-- of its reads in flight, so that no slot leaks; the counts kept are positive, one for each address.
pub Reached-Invariant :
    {is_broadcastish allowed : ℕ → Bool} {s : State}
    → Reached is_broadcastish allowed s
    → Invariant s
unfolding count_of
Reached-Invariant from_idle = record {
  in_total = ground arith;
  counted = λ ip. refl;
  for_peer = λ ip. ground arith;
  tidy = tt;
}
Reached-Invariant {is_broadcastish} {allowed} (received {s} ip request r) =
    receive-Invariant is_broadcastish allowed s ip request (Reached-Invariant r)
Reached-Invariant (ended {s} n r) = end_transfer-Invariant n s (Reached-Invariant r)
