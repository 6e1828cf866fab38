-- ===== src/Admin/Guard/Size.antt =====
-- The table of failures stays bounded.
use rescriptum.Prelude.{
  ℕ, ◌+◌, ◌≤◌, Bool, true, false, not, ◌&&◌, List, [], ◌∷◌, Option, none, some, leb, length, filter,
  is_some, ◌≡◌, refl, arith, Bool-cases, inl, inr,
}
use rescriptum.Admin.Guard.{
  max_tracked, Failures, Entries, get, put, remove, is_live, sweep, counted, punish, failure,
  success, default_entry, forgive, left_of, cleared,
}

length-put_new : (ip : ℕ) (f : Failures) (m : Entries) → length (put ip f m) ≤ length m + 1
unfolding put
length-put_new ip f [] = ground arith
length-put_new ip f ((i, g) ∷ m) = ground (arith, length-put_new ip f m)

length-put_known :
    (ip : ℕ) (f : Failures) (m : Entries)
    → is_some (get ip m) ≡ true
    → length (put ip f m) ≡ length m
unfolding put get
length-put_known ip f [] h = cc
length-put_known ip f ((i, g) ∷ m) h = ground (arith, length-put_known ip f m)

length-remove : (ip : ℕ) (m : Entries) → length (remove ip m) ≤ length m
unfolding remove
length-remove ip [] = ground arith
length-remove ip ((i, g) ∷ m) = ground (arith, length-remove ip m)

length-filter : {A : Type 0} (p : A → Bool) (xs : List A) → length (filter p xs) ≤ length xs
length-filter p [] = ground arith
length-filter p (x ∷ xs) = ground (arith, length-filter p xs)

length-sweep : (now : ℕ) (m : Entries) → length (sweep now m) ≤ length m
unfolding sweep
length-sweep now m = ground (arith, length-filter (is_live now) m)

length-put :
    (m : Entries) (f : Failures) (ip : ℕ)
    → length m ≤ max_tracked
    → (leb max_tracked (length m) && not (is_some (get ip m))) ≡ false
    → length (put ip f m) ≤ max_tracked
length-put m f ip h room = elim (Bool-cases (is_some (get ip m))) [
  | inl known ↦ ground (arith, length-put_known ip f m known)
  | inr fresh ↦ ground (arith, length-put_new ip f m)
]

-- A failed attempt never makes the table longer than 4096 entries.
pub length-failure :
    (m : Entries) (now ip : ℕ) → length m ≤ max_tracked → length (failure m now ip).0 ≤ max_tracked
unfolding failure
length-failure m now ip h =
    let swept = sweep now m in
    let entry = punish now (counted now (default_entry (get ip swept))) in
    elim (Bool-cases (leb max_tracked (length swept) && not (is_some (get ip swept)))) [
      | inl full ↦ rw full (ground (arith, length-sweep now m))
      | inr room ↦ rw room (length-put swept entry.0 ip (ground (arith, length-sweep now m)) room)
    ]

forget-length :
    (m : Entries) (now ip : ℕ) (o : Option Failures)
    → get ip m ≡ o
    → length (forgive m now ip o) ≤ length m
forget-length m now ip none e = ground arith
forget-length m now ip (some f) e = elim (Bool-cases (is_some (left_of now f.blocked_until))) [
  | inl blocked ↦ rw blocked (ground (arith, length-put_known ip (cleared f) m (rw e refl)))
  | inr open_now ↦ rw open_now (length-remove ip m)
]

-- A successful attempt never makes the table longer.
pub length-success : (m : Entries) (now ip : ℕ) → length (success m now ip) ≤ length m
unfolding success
length-success m now ip = forget-length m now ip (get ip m) refl
