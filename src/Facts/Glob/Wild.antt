-- ===== src/Facts/Glob/Wild.antt =====
-- The reference definition of wildcard matching, and what the greedy loop needs of it.
use rescriptum.Prelude.{
  ℕ, zero, suc, ◌≤◌, Bool, true, false, ◌&&◌, ◌||◌, [], ◌∷◌, ◌++◌, Str, ◌==◌, ◌≡◌, ◌≢◌, refl, arith,
  if◌then◌else◌, length, drop, All, ◌⊎◌, inl, inr,
}

-- `*` stands for any run of characters, `?` for one, any other character for itself.
unfoldable pub wild : Str → Str → Bool
wild [] [] = true
wild [] (c ∷ t) = false
wild (q ∷ p) [] = q == b'*' && wild p []
wild (q ∷ p) (c ∷ t) =
    let stop = wild p (c ∷ t) in
    let take = wild (q ∷ p) t in
    let one = wild p t in if q == b'*' then stop || take else (q == b'?' || q == c) && one

abbrev pub Starless : Str → Type 0
Starless = All (λ c. c ≢ b'*')

-- A starless run of the pattern takes one character of the text for each of its own.
pub wild_run :
    (w p s : Str)
    → Starless w
    → wild (w ++ p) s ≡ true
    → (length w ≤ length s) × (wild p (drop (length w) s) ≡ true)
unfolding wild
wild_run [] p s n h = (omega arith, h)
wild_run (q ∷ w) p [] (nq, n) h = absurd (ground arith)
wild_run (q ∷ w) p (c ∷ s) (nq, n) h = ground (arith, wild_run w p s n)

-- A star takes one character more.
pub wild_star_cons :
    (p : Str) (x : ℕ) (s : Str) → wild (b'*' ∷ p) s ≡ true → wild (b'*' ∷ p) (x ∷ s) ≡ true
unfolding wild
wild_star_cons p x s h = ground arith

wild_star_drop :
    (p : Str) (n : ℕ) (s : Str)
    → wild (b'*' ∷ p) (drop (suc n) s) ≡ true
    → wild (b'*' ∷ p) (drop n s) ≡ true
wild_star_drop p zero [] h = h
wild_star_drop p zero (x ∷ s) h = wild_star_cons p x s h
wild_star_drop p (suc n) [] h = h
wild_star_drop p (suc n) (x ∷ s) h = wild_star_drop p n s h

pub wild_star_nil : (p : Str) → wild (b'*' ∷ p) [] ≡ wild p []
unfolding wild
wild_star_nil p = refl

pub wild_star_step :
    (p : Str) (x : ℕ) (s : Str) → wild (b'*' ∷ p) (x ∷ s) ≡ (wild p (x ∷ s) || wild (b'*' ∷ p) s)
unfolding wild
wild_star_step p x s = refl

or_self : (b : Bool) → b ≡ (b || b)
or_self b = ground arith

-- The same at any place of the text, its end included.
pub wild_star_at :
    (p t : Str) (r : ℕ)
    → wild (b'*' ∷ p) (drop r t) ≡ (wild p (drop r t) || wild (b'*' ∷ p) (drop (suc r) t))
wild_star_at p [] zero = rw wild_star_nil (or_self _)
wild_star_at p [] (suc r) = rw wild_star_nil (or_self _)
wild_star_at p (x ∷ t) zero = wild_star_step p x t
wild_star_at p (x ∷ t) (suc r) = wild_star_at p t r

or_cases : (a b : Bool) → (a || b) ≡ true → (a ≡ true) ⊎ (b ≡ true)
or_cases a b h = ground arith

wild_star_cases :
    (p : Str) (x : ℕ) (s : Str)
    → wild (b'*' ∷ p) (x ∷ s) ≡ true
    → (wild p (x ∷ s) ≡ true) ⊎ (wild (b'*' ∷ p) s ≡ true)
wild_star_cases p x s h = or_cases _ _ (rw wild_star_step at h)

-- Whatever an earlier star reaches over a starless run and a second star, the second star reaches
-- from where the run ends first.
pub wild_two_stars :
    (w p s : Str)
    → Starless w
    → wild (b'*' ∷ (w ++ b'*' ∷ p)) s ≡ true
    → wild (b'*' ∷ p) (drop (length w) s) ≡ true
wild_two_stars w p [] n h = (wild_run w (b'*' ∷ p) [] n (rw wild_star_nil at h)).1
wild_two_stars w p (x ∷ s) n h = elim (wild_star_cases (w ++ b'*' ∷ p) x s h) [
  | inl now ↦ (wild_run w (b'*' ∷ p) (x ∷ s) n now).1
  | inr later ↦ wild_star_drop p (length w) (x ∷ s) (wild_two_stars w p s n later)
]

-- A star in front of a starless run needs as many characters as the run has.
pub wild_star_length :
    (w p s : Str) → Starless w → wild (b'*' ∷ (w ++ p)) s ≡ true → length w ≤ length s
wild_star_length w p [] n h = (wild_run w p [] n (rw wild_star_nil at h)).0
wild_star_length w p (x ∷ s) n h = elim (wild_star_cases (w ++ p) x s h) [
  | inl now ↦ (wild_run w p (x ∷ s) n now).0
  | inr later ↦ omega (arith, wild_star_length w p s n later)
]
