-- ===== src/Admin/Write/Rollback.antt =====
-- What a guarded write of src/admin.rs does about the problems it brings.
use rescriptum.Prelude.{
  Bool, true, false, List, [], ◌∷◌, Option, none, some, Str, ◌≡◌, refl, sym, ◌∙◌, inl, inr, ◌⊎◌,
}
use mathlib.Core.Path.{subst}
use rescriptum.Prelude.Result.{Result, ok, err}
use rescriptum.Select.Docs.{Docs}
use rescriptum.Select.Listing.{Problem, Snapshot}
use rescriptum.Admin.Write.{
  Slot, Store, Reply, not_found, internal, rejected, conflict, stored, introduced, previous_body,
  problems, apply, restore, settle, written, guarded, done, or_default,
}
use rescriptum.Admin.Write.Refused.{
  Result-cases, guarded_unreadable, guarded_no_snapshot, guarded-written,
}

module _ (D : Docs) (S : Store) where
  open S use {State, snapshot, put}

  -- What a guarded write amounts to, by its answer: where it is kept, the problems now are ones that
  -- were there before (or cannot be read); where it conflicts, what was there before is put back.
  pub data Outcome (slot : Slot) (format : Str) (body : Option Str) (s : State)
      : State × Reply → Type 0 where
    unread : (e : Str) → Outcome slot format body s (s, internal e)
    refused :
        (e : Str) {s' : State}
        → apply D S slot format body s ≡ (err e, s')
        → Outcome slot format body s (s', rejected e)
    missing :
        {s' : State}
        → apply D S slot format body s ≡ (ok false, s')
        → Outcome slot format body s (s', not_found)
    kept :
        (before after : List Problem) (there : Bool) {s' : State}
        → problems D S s ≡ ok before
        → apply D S slot format body s ≡ (ok there, s')
        → (problems D S s' ≡ ok after) ⊎ ((after ≡ []) × ((e : Str) × (problems D S s' ≡ err e)))
        → introduced before after ≡ []
        → Outcome slot format body s (s', done D S body after)
    undone :
        (before after : List Problem) (taken : Snapshot) (there : Bool) (p : Problem)
        (ps : List Problem) {s' : State}
        → problems D S s ≡ ok before
        → snapshot s ≡ ok taken
        → apply D S slot format body s ≡ (ok there, s')
        → problems D S s' ≡ ok after
        → introduced before after ≡ p ∷ ps
        → Outcome slot format body s
            (restore D S slot format (previous_body slot format taken) s', conflict (p ∷ ps))

  settle-Outcome :
      (slot : Slot) (format : Str) (body : Option Str) (s s' : State) (before after : List Problem)
      (taken : Snapshot) (there : Bool) (new : List Problem)
      → problems D S s ≡ ok before
      → snapshot s ≡ ok taken
      → apply D S slot format body s ≡ (ok there, s')
      → problems D S s' ≡ ok after
      → introduced before after ≡ new
      → Outcome slot format body s
          (settle D S slot format body (previous_body slot format taken) after new s')
  settle-Outcome slot format body s s' before after taken there [] p q a r n =
      kept before after there p a (inl r) n
  settle-Outcome slot format body s s' before after taken there (x ∷ xs) p q a r n =
      undone before after taken there x xs p q a r n

  known-Outcome :
      (slot : Slot) (format : Str) (body : Option Str) (s s' : State) (before : List Problem)
      (taken : Snapshot) (there : Bool)
      → problems D S s ≡ ok before
      → snapshot s ≡ ok taken
      → apply D S slot format body s ≡ (ok there, s')
      → (let after = or_default D S (problems D S s') in
          Outcome slot format body s (
            settle D S slot format body
              (previous_body slot format taken)
              after
              (introduced before after)
              s'))
  unfolding introduced
  known-Outcome slot format body s s' before taken there p q a =
      elim (Result-cases (problems D S s')) [
        | inl (after, r) ↦ rw r (
            settle-Outcome slot format body s s' before after taken there (introduced before after)
              p q a r refl)
        | inr (e, r) ↦ rw r (kept before [] there p a (inr (refl, (e, r))) refl)
      ]

  written-Outcome :
      (slot : Slot) (format : Str) (body : Option Str) (s : State) (before : List Problem)
      (taken : Snapshot) (o : Result Str Bool × State)
      → problems D S s ≡ ok before
      → snapshot s ≡ ok taken
      → apply D S slot format body s ≡ o
      → Outcome slot format body s
          (written D S slot format body (previous_body slot format taken) before o)
  written-Outcome slot format body s before taken (err e, s') p q a = refused e a
  written-Outcome slot format none s before taken (ok false, s') p q a = missing a
  written-Outcome slot format none s before taken (ok true, s') p q a =
      known-Outcome slot format none s s' before taken true p q a
  written-Outcome slot format (some b) s before taken (ok there, s') p q a =
      known-Outcome slot format (some b) s s' before taken there p q a

  -- Every guarded write ends in one of five ways. The store could not be read, and nothing was written;
  -- the store refused the write; a deletion found nothing; the write is kept, and every problem the
  -- store then reports was there before, or the problems could not be read again; or the write brought a
  -- problem, the answer names exactly the new ones, and the body that stood in that place is
  -- written again, or deleted where none stood.
  pub guarded-Outcome :
      (slot : Slot) (format : Str) (body : Option Str) (s : State)
      → Outcome slot format body s (guarded D S slot format body s)
  guarded-Outcome slot format body s = elim (Result-cases (problems D S s)) [
    | inr (e, p) ↦
        subst (Outcome slot format body s) (sym (guarded_unreadable D S slot format body s p))
          (unread e)
    | inl (before, p) ↦ elim (Result-cases (snapshot s)) [
      | inr (e, q) ↦
          subst (Outcome slot format body s) (sym (guarded_no_snapshot D S slot format body s p q))
            (unread e)
      | inl (taken, q) ↦
          subst (Outcome slot format body s) (sym (guarded-written D S slot format body s p q)) (
            written-Outcome slot format body s before taken (apply D S slot format body s) p q refl)
    ]
  ]

  -- A write after which the problems cannot be read is kept, and answered as stored with no problems.
  pub guarded_fails_open :
      (slot : Slot) (format body : Str) (s : State) {s' : State} {before : List Problem}
      {taken : Snapshot} {e : Str}
      → problems D S s ≡ ok before
      → snapshot s ≡ ok taken
      → put slot format body s ≡ (ok tt, s')
      → problems D S s' ≡ err e
      → guarded D S slot format (some body) s ≡ (s', stored [])
  unfolding introduced
  guarded_fails_open slot format body s p q a r =
      guarded-written D S slot format (some body) s p q ∙ (rw (a, r) refl)
