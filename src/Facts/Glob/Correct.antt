-- ===== src/Facts/Glob/Correct.antt =====
-- The loop of `glob` computes the reference definition, on a text without a `*`.
use rescriptum.Prelude.{
  ℕ, zero, suc, ◌+◌, ◌-◌, ◌*◌, ◌≤◌, ◌<◌, Bool, true, false, ◌||◌, [], ◌∷◌, ◌++◌, Option, none, some,
  Str, ◌==◌, ◌≡◌, ◌≢◌, refl, sym, ap, ◌∙◌, arith, get_elem?, length, length-drop, length-append,
  drop-drop, drop, inl, inr, ==_iff, Bool-cases, drop_all, append_assoc,
}
use rescriptum.Facts.Glob.{
  Cursor, Step, done, next, only_stars, backtrack, at_char, glob_step, glob_loop, start, rounds,
  glob,
}
use rescriptum.Facts.Glob.Wild.{
  wild, Starless, wild_star_cons, wild_star_nil, wild_star_step, wild_star_at, wild_two_stars,
  wild_star_length,
}

-- What the rest of the loop finds: a match from here, or one after a further backtrack.
abbrev again : Option ℕ → Str → Str → ℕ → Bool
again none p t r = false
again (some s) p t r = wild (b'*' ∷ drop (suc s) p) (drop (suc r) t)

abbrev value : Str → Str → Cursor → Bool
value p t k = wild (drop k.pi p) (drop k.ti t) || again k.star p t k.resume

-- Between the star and the place in the pattern stands a starless run, as long as the text
-- that was read since.
abbrev Run : Option ℕ → Str → ℕ → ℕ → ℕ → Type 0
Run none p pi ti r = r ≡ 0
Run (some s) p pi ti r =
    (w : Str) × (drop (suc s) p ≡ w ++ drop pi p)
    × Starless w
    × (ti ≡ r + length w)
    × (s < length p)

record Inv (p t : Str) (k : Cursor) : Type 0 where
  run : Run k.star p k.pi k.ti k.resume
  in_pattern : k.pi ≤ length p
  in_text : k.ti ≤ length t

measure : Str → Str → Cursor → ℕ
measure p t k = (length t - k.resume) * (length p + 1) + (length p - k.pi)

drop_at :
    (xs : Str) (i : ℕ) {x : ℕ}
    → get_elem? xs i ≡ some x
    → (drop i xs ≡ x ∷ drop (suc i) xs) × (i < length xs)
drop_at [] i h = cc
drop_at (y ∷ xs) zero h = ground arith
drop_at (y ∷ xs) (suc i) h = ((drop_at xs i h).0, omega (arith, (drop_at xs i h).1))

past_end : (xs : Str) (i : ℕ) → get_elem? xs i ≡ none → drop i xs ≡ []
past_end [] zero h = refl
past_end [] (suc i) h = refl
past_end (y ∷ xs) zero h = cc
past_end (y ∷ xs) (suc i) h = past_end xs i h

past_length : (xs : Str) (i : ℕ) → get_elem? xs i ≡ none → length xs ≤ i
past_length [] i h = omega arith
past_length (y ∷ xs) zero h = cc
past_length (y ∷ xs) (suc i) h = omega (arith, past_length xs i h)

only_stars-wild : (p : Str) → only_stars p ≡ wild p []
unfolding only_stars wild
only_stars-wild [] = refl
only_stars-wild (q ∷ p) = ground (arith, only_stars-wild p)

wild-nil_cons : (c : ℕ) (t : Str) → wild [] (c ∷ t) ≡ false
unfolding wild
wild-nil_cons c t = refl

-- the three ways in which a pattern's head meets a character that is no star
wild_one :
    (q : ℕ) (p : Str) (c : ℕ) (t : Str)
    → c ≢ b'*'
    → (q == b'?' || q == c) ≡ true
    → wild (q ∷ p) (c ∷ t) ≡ wild p t
unfolding wild
wild_one q p c t n h = ground arith

wild_miss :
    (q : ℕ) (p : Str) (c : ℕ) (t : Str)
    → (q == b'?' || q == c) ≡ false
    → (q == b'*') ≡ false
    → wild (q ∷ p) (c ∷ t) ≡ false
unfolding wild
wild_miss q p c t h k = ground arith

-- What an outcome of a round has to satisfy.
abbrev Sound : Str → Str → Cursor → Step → Type 0
Sound p t k (done b) = b ≡ value p t k
Sound p t k (next k') = Inv p t k' × (value p t k' ≡ value p t k) × (measure p t k' < measure p t k)

module _ (p t : Str) (pi ti r : ℕ) where
  -- an open star reaches nothing that a star here does not
  again_covered :
      (star : Option ℕ) (rest : Str)
      → Run star p pi ti r
      → drop pi p ≡ b'*' ∷ rest
      → again star p t r ≡ true
      → wild (b'*' ∷ rest) (drop (suc ti) t) ≡ true
  again_covered none rest run d h = cc
  again_covered (some s) rest (w, split, n, e, _) d h =
      let far = wild_two_stars w rest (drop (suc r) t) n (rw (split ∙ ap (λ x. w ++ x) d) at h) in
      let there : suc r + length w ≡ suc ti = omega arith in rw (drop-drop, there) at far

  again_ends :
      (star : Option ℕ)
      → Run star p pi ti r
      → ti ≡ length t
      → again star p t r ≡ true
      → wild (drop pi p) [] ≡ true
  again_ends none run e h = cc
  again_ends (some s) ([], split, n, len, _) e h =
      let nothing : drop (suc r) t ≡ [] = drop_all (suc r) t (omega arith) in
      rw wild_star_nil at (rw (split, nothing) at h)
  again_ends (some s) (x ∷ w, split, n, len, _) e h =
      let far = wild_star_length (x ∷ w) (drop pi p) (drop (suc r) t) n (rw split at h) in
      absurd (omega (arith, far, length-drop (suc r) t))

absorb : (a b : Bool) → (b ≡ true → a ≡ true) → (a || b) ≡ a
absorb true b h = refl
absorb false true h = sym (h refl)
absorb false false h = refl

Starless-concat : (w : Str) (q : ℕ) → q ≢ b'*' → Starless w → Starless (w ++ q ∷ [])
Starless-concat [] q h n = (h, tt)
Starless-concat (x ∷ w) q h (nx, n) = (nx, Starless-concat w q h n)

Run-one :
    (star : Option ℕ) (p : Str) (pi ti r q : ℕ)
    → drop pi p ≡ q ∷ drop (suc pi) p
    → q ≢ b'*'
    → Run star p pi ti r
    → Run star p (suc pi) (suc ti) r
Run-one none p pi ti r q d n run = run
Run-one (some s) p pi ti r q d n (w, split, free, e, s_in) = (
  w ++ q ∷ [],
  split ∙ ap (λ x. w ++ x) d ∙ sym (append_assoc w (q ∷ []) (drop (suc pi) p)),
  Starless-concat w q n free,
  omega (arith, e, length-append w (q ∷ [])),
  s_in,
)

Run-resume : (star : Option ℕ) (p : Str) (pi ti r : ℕ) → Run star p pi ti r → r ≤ ti
Run-resume none p pi ti r run = omega arith
Run-resume (some s) p pi ti r (w, _, _, e, _) = omega arith

Run-star :
    (star : Option ℕ) (p : Str) (pi ti r s : ℕ) → star ≡ some s → Run star p pi ti r → s < length p
Run-star none p pi ti r s e run = cc
Run-star (some x) p pi ti r s e (w, _, _, _, h) = let same : x ≡ s = cc in omega arith

-- the two ways in which the measure falls
shorter : (a b n x y : ℕ) → a ≤ b → x < y → a * n + x < b * n + y
shorter a b n x y h k = grind arith

longer : (a b n x y : ℕ) → a < b → x ≤ n → a * (n + 1) + x < b * (n + 1) + y
longer a b n x y h k = grind arith

-- the value at a star of the pattern
value_at_star :
    (pi ti : ℕ) (p t : Str) (c : ℕ) (old : Bool)
    → drop pi p ≡ b'*' ∷ drop (suc pi) p
    → drop ti t ≡ c ∷ drop (suc ti) t
    → (old ≡ true → wild (b'*' ∷ drop (suc pi) p) (c ∷ drop (suc ti) t) ≡ true)
    → (wild (drop (suc pi) p) (drop ti t) || wild (b'*' ∷ drop (suc pi) p) (drop (suc ti) t))
      ≡ (wild (drop pi p) (drop ti t) || old)
value_at_star pi ti p t c old dp dt h =
    rw (dp, dt) (sym (wild_star_step _ c _) ∙ sym (absorb _ old h))

no_star : (q c : ℕ) → c ≢ b'*' → (q == b'?' || q == c) ≡ true → q ≢ b'*'
no_star q c n h = ground arith

module _ (p t : Str) (k : Cursor) (inv : Inv p t k) where
  end-Sound : get_elem? t k.ti ≡ none → Sound p t k (glob_step none p k)
  unfolding glob_step
  end-Sound e = rw (past_end t k.ti e) (
      only_stars-wild (drop k.pi p)
      ∙ sym (
          absorb _ _ (
            again_ends p t k.pi k.ti k.resume k.star inv.run
              (omega (arith, past_length t k.ti e, inv.in_text)))))

  module _ (c : ℕ) (plain : c ≢ b'*') (here : get_elem? t k.ti ≡ some c) where
    one-Sound :
        (q : ℕ)
        → get_elem? p k.pi ≡ some q
        → (q == b'?' || q == c) ≡ true
        → Sound p t k (next (record k { pi = suc k.pi; ti = suc k.ti }))
    unfolding measure
    one-Sound q e h =
        let (dp, lp) = drop_at p k.pi e in
        let (dt, lt) = drop_at t k.ti here in
        (
          record {
            run = Run-one k.star p k.pi k.ti k.resume q dp (no_star q c plain h) inv.run;
            in_pattern = omega arith;
            in_text = omega arith;
          },
          ap (λ b. b || again k.star p t k.resume)
              (sym (
                ap (λ x. wild x (drop k.ti t)) dp
                ∙ ap (wild (q ∷ drop (suc k.pi) p)) dt
                ∙ wild_one q _ c _ plain h)),
          omega arith,
        )

    star-Sound :
        (q : ℕ)
        → get_elem? p k.pi ≡ some q
        → (q == b'*') ≡ true
        → Sound p t k (next (record k { pi = suc k.pi; star = some k.pi; resume = k.ti }))
    unfolding measure
    star-Sound q e h =
        let (dp, lp) = drop_at p k.pi e in
        let (dt, lt) = drop_at t k.ti here in
        (
          record {
            run = ([], refl, tt, omega arith, lp);
            in_pattern = omega arith;
            in_text = inv.in_text;
          },
          let ds = dp ∙ ap (λ x. x ∷ drop (suc k.pi) p) ((==_iff q b'*').0 h) in
              let covered = λ (a : again k.star p t k.resume ≡ true).
                wild_star_cons _ c _ (again_covered p t k.pi k.ti k.resume k.star _ inv.run ds a) in
              value_at_star k.pi k.ti p t c (again k.star p t k.resume) ds dt covered,
          shorter (length t - k.ti) (length t - k.resume) (length p + 1) _ _
              (omega (arith, Run-resume k.star p k.pi k.ti k.resume inv.run)) (omega arith),
        )

    miss-Sound :
        (star : Option ℕ)
        → k.star ≡ star
        → wild (drop k.pi p) (drop k.ti t) ≡ false
        → Sound p t k (backtrack star k)
    unfolding backtrack measure
    miss-Sound none e lost =
        sym (ap (λ b. b || again k.star p t k.resume) lost ∙ ap (λ x. again x p t k.resume) e)
    miss-Sound (some s) e lost =
        let (dt, lt) = drop_at t k.ti here in
        let low = Run-resume k.star p k.pi k.ti k.resume inv.run in
        let s_in = Run-star k.star p k.pi k.ti k.resume s e inv.run in
        (
          record {
            run = ([], refl, tt, omega arith, s_in);
            in_pattern = s_in;
            in_text = omega arith;
          },
          sym (
              ap (λ b. b || again k.star p t k.resume) lost
              ∙ ap (λ x. again x p t k.resume) e
              ∙ wild_star_at (drop (suc s) p) t (suc k.resume)),
          longer (length t - suc k.resume) (length t - k.resume) (length p) _ _ (omega arith)
              (omega arith),
        )

    at_char-Sound : (o : Option ℕ) → get_elem? p k.pi ≡ o → Sound p t k (at_char o c k)
    unfolding at_char
    at_char-Sound none e = miss-Sound k.star refl (
        ap (λ x. wild x (drop k.ti t)) (past_end p k.pi e)
        ∙ ap (wild []) (drop_at t k.ti here).0
        ∙ wild-nil_cons c _)
    at_char-Sound (some q) e = elim (Bool-cases (q == b'?' || q == c)) [
      | inl h ↦ rw h (one-Sound q e h)
      | inr h ↦ elim (Bool-cases (q == b'*')) [
        | inl g ↦ rw (h, g) (star-Sound q e g)
        | inr g ↦
            rw (h, g)
              (miss-Sound k.star refl (
                ap (λ x. wild x (drop k.ti t)) (drop_at p k.pi e).0
                ∙ ap (wild (q ∷ drop (suc k.pi) p)) (drop_at t k.ti here).0
                ∙ wild_miss q _ c _ h g))
      ]
    ]

plain_at : (t : Str) (i : ℕ) {c : ℕ} → Starless t → get_elem? t i ≡ some c → c ≢ b'*'
plain_at [] i n e = cc
plain_at (x ∷ t) zero (nx, n) e = λ h. nx (cc)
plain_at (x ∷ t) (suc i) (nx, n) e = plain_at t i n e

glob_step-Sound :
    (p t : Str) (k : Cursor) (o : Option ℕ)
    → Starless t
    → Inv p t k
    → get_elem? t k.ti ≡ o
    → Sound p t k (glob_step o p k)
unfolding glob_step
glob_step-Sound p t k none n inv e = end-Sound p t k inv e
glob_step-Sound p t k (some c) n inv e =
    at_char-Sound p t k inv c (plain_at t k.ti n e) e (get_elem? p k.pi) refl

follow :
    (fuel : ℕ) (p t : Str) (k : Cursor) (s : Step)
    → measure p t k < suc fuel
    → ((k' : Cursor)
        → Inv p t k'
        → measure p t k' < fuel
        → glob_loop fuel p t k' ≡ some (value p t k'))
    → Sound p t k s
    → elim s [ done b ↦ some b | next k' ↦ glob_loop fuel p t k' ] ≡ some (value p t k)
follow fuel p t k (done b) h ih sound = ap some sound
follow fuel p t k (next k') h ih (inv, same, less) = ih k' inv (omega arith) ∙ ap some same

-- the whole loop, from any cursor of the invariant, with fuel above the measure
glob_loop-value :
    (fuel : ℕ) (p t : Str) (k : Cursor)
    → Starless t
    → Inv p t k
    → measure p t k < fuel
    → glob_loop fuel p t k ≡ some (value p t k)
unfolding glob_loop
glob_loop-value zero p t k n inv h = absurd (omega arith)
glob_loop-value (suc fuel) p t k n inv h =
    follow fuel p t k (glob_step (get_elem? t k.ti) p k) h
      (λ k' i less. glob_loop-value fuel p t k' n i less) (glob_step-Sound p t k _ n inv refl)

start-Inv : (p t : Str) → Inv p t start
start-Inv p t = record { run = refl; in_pattern = omega arith; in_text = omega arith }

start_measure : (a b : ℕ) → (a - 0) * (b + 1) + (b - 0) < a * (b + 1) + b + 1
start_measure a b = let same : a - 0 ≡ a = omega arith in rw same (omega arith)

-- On a text without a `*` the loop ends within its fuel and computes the reference definition.
pub glob_loop-wild : (p t : Str) → Starless t → glob_loop (rounds p t) p t start ≡ some (wild p t)
unfolding measure
glob_loop-wild p t n =
    glob_loop-value (rounds p t) p t start n (start-Inv p t) (start_measure (length t) (length p))
    ∙ ap some (absorb _ false (λ h. cc))

-- The matcher is the reference definition, for every pattern and every text without a `*`.
pub glob-wild : (p t : Str) → Starless t → glob p t ≡ wild p t
unfolding glob
glob-wild p t n = rw (glob_loop-wild p t n)
