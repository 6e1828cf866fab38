-- ===== src/Select/Score/Best.antt =====
-- What wins a request.
use rescriptum.Prelude.{
  ℕ, ◌<◌, Bool, true, false, List, Option, some, str_ltb, ◌≡◌, arith, ◌⊎◌, Among, filter,
}
use rescriptum.Facts.Labels.{Facts}
use rescriptum.Select.Listing.{Candidate, Group, Listing}
use rescriptum.Select.Score.{score, wanted, acceptable, best_machine, best_group}
use rescriptum.Select.Score.Winner.{filter-Among, Among-filter, winner-Among}

-- What the winner of a kind is: one of those offered that the request accepts, with a score.
pub record Wins {T : Type 0} (offered : List T) (accepts : T → Bool) (scored : T → Option ℕ) (t : T)
    : Type 0 where
  pub offered_one : Among t offered
  pub accepted : accepts t ≡ true
  pub points : ℕ
  pub scores : scored t ≡ some points

-- the scores and the formats of a machine and of a group on a request
abbrev pub machine_score : {Doc : Type 0} → Facts → Candidate Doc → Option ℕ
machine_score facts c = score c.control c.identity facts

abbrev pub machine_accepted : {Doc : Type 0} → Facts → Candidate Doc → Bool
machine_accepted facts c = acceptable (wanted facts) c.format

abbrev pub group_score : {Doc : Type 0} → Facts → Group Doc → Option ℕ
group_score facts g = score g.control g.identity facts

abbrev pub group_accepted : {Doc : Type 0} → Facts → Group Doc → Bool
group_accepted facts g = acceptable (wanted facts) g.format

module _ {Doc : Type 0} (listing : Listing Doc) (facts : Facts) where
  -- A machine that wins is one of the listing's, in a format that the request accepts, and it scores.
  pub best_machine-Wins :
      {c : Candidate Doc}
      → best_machine listing facts ≡ some c
      → Wins listing.candidates (machine_accepted facts) (machine_score facts) c
  unfolding best_machine
  best_machine-Wins {c} h =
      let (s, m, scores, best) =
        winner-Among (machine_score facts) (λ x. x.id)
          (filter (machine_accepted facts) listing.candidates) h in
      let (offered, accepted) = filter-Among (machine_accepted facts) listing.candidates m in
      record { offered_one = offered; accepted = accepted; points = s; scores = scores }

  -- No other machine of the listing that the request accepts and that scores beats the winner: none
  -- has a higher score, and among those with the same score none has a smaller name.
  pub best_machine-outranks :
      {c : Candidate Doc} (d : Candidate Doc) {r : ℕ}
      → best_machine listing facts ≡ some c
      → Among d listing.candidates
      → machine_accepted facts d ≡ true
      → machine_score facts d ≡ some r
      → (s : ℕ) × (machine_score facts c ≡ some s)
        × ((r < s) ⊎ ((r ≡ s) × (str_ltb d.id c.id ≡ false)))
  unfolding best_machine
  best_machine-outranks {c} d {r} h m accepted scores =
      let (s, _, wins, best) =
        winner-Among (machine_score facts) (λ x. x.id)
          (filter (machine_accepted facts) listing.candidates) h in
      let beaten =
        best d r (Among-filter (machine_accepted facts) listing.candidates m accepted) scores in
      (s, wins, ground (arith, beaten))

  -- No other group of the listing that the request accepts and that scores beats the winning group:
  -- none has a higher score, and among those with the same score none has a smaller name.
  pub best_group-outranks :
      {g : Group Doc} (d : Group Doc) {r : ℕ}
      → best_group listing facts ≡ some g
      → Among d listing.groups
      → group_accepted facts d ≡ true
      → group_score facts d ≡ some r
      → (s : ℕ) × (group_score facts g ≡ some s)
        × ((r < s) ⊎ ((r ≡ s) × (str_ltb d.name g.name ≡ false)))
  unfolding best_group
  best_group-outranks {g} d {r} h m accepted scores =
      let (s, _, wins, best) =
        winner-Among (group_score facts) (λ x. x.name)
          (filter (group_accepted facts) listing.groups) h in
      let beaten =
        best d r (Among-filter (group_accepted facts) listing.groups m accepted) scores in
      (s, wins, ground (arith, beaten))
