-- ===== src/Select/Score/Winner.antt =====
-- The winner of `max_by` among the claims on a request.
use rescriptum.Prelude.{
  ℕ, Bool, true, false, ◌&&◌, ◌||◌, List, [], ◌∷◌, Option, none, some, Str, str_ltb, ltb, ◌==◌, ◌≡◌,
  refl, arith, Bool-cases, inl, inr, ◌⊎◌, All, Among, ◌∙◌, sym, ap, Option-cases, filter,
}
use rescriptum.Prelude.Order.{str_ltb_asym, str_ltb_negative, str_ltb_irrefl}
use mathlib.Core.Path.{subst}
use mathlib.Core.List.{foldl}
use rescriptum.Select.Score.{Claim, outranks, better, max_by, claims, winner}

module _ {T : Type 0} where
  outranks-asym : (x y : Claim T) → outranks x y ≡ true → outranks y x ≡ false
  outranks-asym x y h = ground (arith, h, str_ltb_asym x.name y.name)

  outranks-negative :
      (x y z : Claim T) → outranks x y ≡ false → outranks y z ≡ false → outranks x z ≡ false
  outranks-negative x y z h k = ground (arith, h, k, str_ltb_negative x.name y.name z.name)

  outranks_irrefl : (x : Claim T) → outranks x x ≡ false
  outranks_irrefl x = ground (arith, str_ltb_irrefl x.name)

  -- what is chosen among claims: one of them, which none of them outranks
  pub record Chosen (xs : List (Claim T)) (w : Claim T) : Type 0 where
    pub among : Among w xs
    pub best : All (λ x. outranks x w ≡ false) xs

  foldl-Chosen : (x : Claim T) (xs : List (Claim T)) → Chosen (x ∷ xs) (foldl better x xs)
  foldl-Chosen x [] = record { among = inl refl; best = (outranks_irrefl x, tt) }
  foldl-Chosen x (y ∷ ys) = elim (Bool-cases (outranks x y)) [
    | inl keep ↦
        let c = foldl-Chosen x ys in
        let y_too = outranks-negative y x (foldl better x ys) (outranks-asym x y keep) c.best.0 in
        rw keep (record { among = past_second c.among; best = (c.best.0, (y_too, c.best.1)) })
    | inr fall ↦
        let c = foldl-Chosen y ys in
        rw fall (record {
          among = inr c.among;
          best = (outranks-negative x y (foldl better y ys) fall c.best.0, c.best);
        })
  ]
    where
      past_second : {w : Claim T} → Among w (x ∷ ys) → Among w (x ∷ y ∷ ys)
      past_second (inl e) = inl e
      past_second (inr m) = inr (inr m)

  max_by-Chosen : (xs : List (Claim T)) {w : Claim T} → max_by xs ≡ some w → Chosen xs w
  unfolding max_by
  max_by-Chosen [] {w} h = cc
  max_by-Chosen (x ∷ xs) {w} h =
      let e : foldl better x xs ≡ w = cc in subst (Chosen (x ∷ xs)) e (foldl-Chosen x xs)

  All-Among :
      (P : Claim T → Type 0) (xs : List (Claim T)) {a : Claim T} → All P xs → Among a xs → P a
  All-Among P [] ps m = elim m [ ]
  All-Among P (x ∷ xs) (p, ps) (inl e) = subst P e p
  All-Among P (x ∷ xs) (p, ps) (inr m) = All-Among P xs ps m

  pub Among-filter :
      (p : T → Bool) (xs : List T) {a : T} → Among a xs → p a ≡ true → Among a (filter p xs)
  Among-filter p [] m h = elim m [ ]
  Among-filter p (x ∷ xs) {a} (inl e) h = let kept : p x ≡ true = ap p e ∙ h in rw kept (inl e)
  Among-filter p (x ∷ xs) {a} (inr m) h = elim (Bool-cases (p x)) [
    | inl kept ↦ rw kept (inr (Among-filter p xs m h))
    | inr out ↦ rw out (Among-filter p xs m h)
  ]

  pub filter-Among :
      (p : T → Bool) (xs : List T) {a : T} → Among a (filter p xs) → Among a xs × (p a ≡ true)
  filter-Among p [] m = elim m [ ]
  filter-Among p (x ∷ xs) {a} m = elim (Bool-cases (p x)) [
    | inl kept ↦ elim (the_members (rw kept at m)) [
      | inl e ↦ (inl e, sym (ap p e) ∙ kept)
      | inr n ↦ let (found, holds) = filter-Among p xs n in (inr found, holds)
    ]
    | inr out ↦ let (found, holds) = filter-Among p xs (rw out at m) in (inr found, holds)
  ]
    where
      the_members : Among a (x ∷ filter p xs) → (x ≡ a) ⊎ Among a (filter p xs)
      the_members n = n

  abbrev pub claim_of : (T → Str) → T → ℕ → Claim T
  claim_of named t s = record { score = s; name = named t; value = t }

  Among-claims :
      (scored : T → Option ℕ) (named : T → Str) (ts : List T) {t : T} {s : ℕ}
      → Among t ts
      → scored t ≡ some s
      → Among (claim_of named t s) (claims scored named ts)
  Among-claims scored named [] m e = elim m [ ]
  Among-claims scored named (x ∷ ts) {t} {s} (inl same) e =
      let here : scored x ≡ some s = ap scored same ∙ e in
      rw (here, claims) (inl (ap (λ u. claim_of named u s) same))
  Among-claims scored named (x ∷ ts) {t} {s} (inr m) e =
      let rest = Among-claims scored named ts m e in
      elim (Option-cases (scored x)) [
        | inl h ↦ rw (h, claims) rest
        | inr (r, h) ↦ rw (h, claims) (inr rest)
      ]

  -- what a claim among those of `ts` is
  abbrev IsClaim : (T → Option ℕ) → (T → Str) → List T → Claim T → Type 0
  IsClaim scored named ts w =
      Among w.value ts × (scored w.value ≡ some w.score) × (w.name ≡ named w.value)

  claim_first :
      (scored : T → Option ℕ) (named : T → Str) (x : T) (ts : List T) (r : ℕ) {w : Claim T}
      → scored x ≡ some r
      → claim_of named x r ≡ w
      → IsClaim scored named (x ∷ ts) w
  claim_first scored named x ts r h e = subst (IsClaim scored named (x ∷ ts)) e (inl refl, h, refl)

  claim_later :
      (scored : T → Option ℕ) (named : T → Str) (x : T) (ts : List T) {w : Claim T}
      → IsClaim scored named ts w
      → IsClaim scored named (x ∷ ts) w
  claim_later scored named x ts (found, score_is, name_is) = (inr found, score_is, name_is)

  either_claim :
      (scored : T → Option ℕ) (named : T → Str) (x : T) (ts : List T) (r : ℕ) {w : Claim T}
      → scored x ≡ some r
      → Among w (claim_of named x r ∷ claims scored named ts)
      → (Among w (claims scored named ts) → IsClaim scored named ts w)
      → IsClaim scored named (x ∷ ts) w
  either_claim scored named x ts r h (inl e) ih = claim_first scored named x ts r h e
  either_claim scored named x ts r h (inr n) ih = claim_later scored named x ts (ih n)

  claims-Among :
      (scored : T → Option ℕ) (named : T → Str) (ts : List T) {w : Claim T}
      → Among w (claims scored named ts)
      → IsClaim scored named ts w
  claims-Among scored named [] m = elim m [ ]
  claims-Among scored named (x ∷ ts) {w} m = elim (Option-cases (scored x)) [
    | inl h ↦ claim_later scored named x ts (claims-Among scored named ts (rw (h, claims) at m))
    | inr (r, h) ↦
        either_claim scored named x ts r h (rw (h, claims) at m)
          (λ n. claims-Among scored named ts n)
  ]

  -- the winner, its score, and that nothing that scores outranks it
  pub winner-Among :
      (scored : T → Option ℕ) (named : T → Str) (ts : List T) {t : T}
      → winner (max_by (claims scored named ts)) ≡ some t
      → (s : ℕ) × Among t ts
        × (scored t ≡ some s)
        × ((u : T) (r : ℕ)
            → Among u ts
            → scored u ≡ some r
            → outranks (claim_of named u r) (claim_of named t s) ≡ false)
  winner-Among scored named ts {t} h = of_winner (max_by (claims scored named ts)) refl h
    where
      of_winner :
          (o : Option (Claim T))
          → max_by (claims scored named ts) ≡ o
          → winner o ≡ some t
          → (s : ℕ) × Among t ts
            × (scored t ≡ some s)
            × ((u : T) (r : ℕ)
                → Among u ts
                → scored u ≡ some r
                → outranks (claim_of named u r) (claim_of named t s) ≡ false)
      of_winner none e n = cc
      of_winner (some w) e n =
          let chosen = max_by-Chosen (claims scored named ts) e in
          let (found, score_is, name_is) = claims-Among scored named ts chosen.among in
          let same : w.value ≡ t = cc in
          (
            w.score,
            subst (λ x. Among x ts) same found,
            ap scored (sym same) ∙ score_is,
            λ u r m scores.
                subst (λ n. (ltb w.score r || (r == w.score && str_ltb (named u) n)) ≡ false)
                  (name_is ∙ ap named same)
                  (All-Among (λ x. outranks x w ≡ false) (claims scored named ts) chosen.best
                    (Among-claims scored named ts m scores)),
          )
