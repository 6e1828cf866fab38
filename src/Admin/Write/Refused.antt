-- ===== src/Admin/Write/Refused.antt =====
-- What the writing handlers leave of the store, and what an accepted write went through.
use rescriptum.Prelude.{
  Bool, true, false, not, ◌&&◌, List, [], ◌∷◌, Option, none, some, Str, Bytes, codes, ◌≡◌, refl,
  sym, Bool-cases, inl, inr, ◌⊎◌,
}
use rescriptum.Prelude.Result.{Result, ok, err}
use rescriptum.Prelude.Utf8.{from_utf8}
use rescriptum.Format.{Kind, for_extension}
use mathlib.Core.Path.{subst}
use rescriptum.Select.Docs.{Docs}
use rescriptum.Select.Listing.{Problem, Snapshot}
use rescriptum.Admin.Write.{
  Slot, Store, Reply, too_large, not_utf8, invalid_id, not_found, invalid_format, internal,
  rejected, conflict, stored, deleted, valid_id, valid_format, introduced, previous_body,
  is_fallback, id_of, problems, apply, settle, written, guarded, parsed_put, text_put, put_document,
  or_default,
}

-- the answers given before the store is written
abbrev pub is_refusal : Reply → Bool
is_refusal too_large = true
is_refusal not_utf8 = true
is_refusal invalid_id = true
is_refusal (invalid_format _) = true
is_refusal (internal _) = true
is_refusal not_found = false
is_refusal (rejected _) = false
is_refusal (conflict _) = false
is_refusal (stored _) = false
is_refusal (deleted _) = false

pub Result-cases :
    {E A : Type 0} (o : Result E A) → ((a : A) × (o ≡ ok a)) ⊎ ((e : E) × (o ≡ err e))
Result-cases (ok a) = inl (a, refl)
Result-cases (err e) = inr (e, refl)

module _ (D : Docs) (S : Store) where
  open D use {parse}
  open S use {State, snapshot, put, delete}

  -- a refusal goes with the store as it was
  abbrev Kept : State → State × Reply → Type 0
  Kept s (s', r) = is_refusal r ≡ true → s' ≡ s

  settle-Kept :
      (slot : Slot) (format : Str) (body previous : Option Str) (after new : List Problem)
      (s₀ s : State)
      → Kept s₀ (settle D S slot format body previous after new s)
  settle-Kept slot format none previous after [] s₀ s h = cc
  settle-Kept slot format (some b) previous after [] s₀ s h = cc
  settle-Kept slot format body previous after (p ∷ ps) s₀ s h = cc

  written-Kept :
      (slot : Slot) (format : Str) (body previous : Option Str) (before : List Problem) (s₀ : State)
      (o : Result Str Bool × State)
      → Kept s₀ (written D S slot format body previous before o)
  written-Kept slot format body previous before s₀ (err e, s) h = cc
  written-Kept slot format none previous before s₀ (ok false, s) h = cc
  written-Kept slot format none previous before s₀ (ok true, s) h =
      settle-Kept slot format none previous (or_default D S (problems D S s))
        (introduced before (or_default D S (problems D S s))) s₀ s h
  written-Kept slot format (some b) previous before s₀ (ok there, s) h =
      settle-Kept slot format (some b) previous (or_default D S (problems D S s))
        (introduced before (or_default D S (problems D S s))) s₀ s h

  -- the three ways through `guarded`
  pub guarded_unreadable :
      (slot : Slot) (format : Str) (body : Option Str) (s : State) {e : Str}
      → problems D S s ≡ err e
      → guarded D S slot format body s ≡ (s, internal e)
  unfolding guarded
  guarded_unreadable slot format body s p = rw (p, guarded) refl

  pub guarded_no_snapshot :
      (slot : Slot) (format : Str) (body : Option Str) (s : State) {before : List Problem} {e : Str}
      → problems D S s ≡ ok before
      → snapshot s ≡ err e
      → guarded D S slot format body s ≡ (s, internal e)
  unfolding guarded
  guarded_no_snapshot slot format body s p q = rw (p, q, guarded) refl

  pub guarded-written :
      (slot : Slot) (format : Str) (body : Option Str) (s : State) {before : List Problem}
      {taken : Snapshot}
      → problems D S s ≡ ok before
      → snapshot s ≡ ok taken
      → guarded D S slot format body s
        ≡ written D S slot format body
            (previous_body slot format taken)
            before
            (apply D S slot format body s)
  unfolding guarded
  guarded-written slot format body s p q = rw (p, q, guarded) refl

  guarded-Kept :
      (slot : Slot) (format : Str) (body : Option Str) (s : State)
      → Kept s (guarded D S slot format body s)
  guarded-Kept slot format body s = elim (Result-cases (problems D S s)) [
    | inr (e, p) ↦ subst (Kept s) (sym (guarded_unreadable slot format body s p)) (λ h. refl)
    | inl (before, p) ↦ elim (Result-cases (snapshot s)) [
      | inr (e, q) ↦ subst (Kept s) (sym (guarded_no_snapshot slot format body s p q)) (λ h. refl)
      | inl (taken, q) ↦ subst (Kept s) (sym (guarded-written slot format body s p q)) (
          written-Kept slot format body (previous_body slot format taken) before s
            (apply D S slot format body s))
    ]
  ]

  parsed_put-Kept :
      (slot : Slot) (format body : Str) (o : Option Kind) (s : State)
      → Kept s (parsed_put D S slot format body o s)
  parsed_put-Kept slot format body none s = λ h. refl
  parsed_put-Kept slot format body (some kind) s =
      elim (Result-cases (parse kind body (codes "document"))) [
        | inr (e, p) ↦
            let step : parsed_put D S slot format body (some kind) s ≡ (s, rejected e) =
              rw (p, parsed_put) refl in
            subst (Kept s) (sym step) (λ h. refl)
        | inl (doc, p) ↦
            let step : parsed_put D S slot format body (some kind) s
                ≡ guarded D S slot format (some body) s =
              rw (p, parsed_put) refl in
            subst (Kept s) (sym step) (guarded-Kept slot format (some body) s)
      ]

  text_put-Kept :
      (slot : Slot) (format : Str) (o : Option Str) (s : State)
      → Kept s (text_put D S slot format o s)
  text_put-Kept slot format none s = λ h. refl
  text_put-Kept slot format (some body) s =
      elim (Bool-cases (not (is_fallback slot) && not (valid_id (id_of slot)))) [
        | inl bad ↦ rw bad (λ h. refl)
        | inr good ↦ elim (Bool-cases (valid_format format)) [
          | inr bad ↦ rw (good, bad) (λ h. refl)
          | inl known ↦ rw (good, known) (parsed_put-Kept slot format body (for_extension format) s)
        ]
      ]

  -- A PUT that is refused (too large, not UTF-8, a bad identifier or format, or a store that
  -- cannot be read) leaves the store exactly as it was.
  pub put_document-refused :
      (slot : Slot) (format : Str) (body : Option Bytes) (s : State)
      → is_refusal (put_document D S slot format body s).1 ≡ true
      → (put_document D S slot format body s).0 ≡ s
  unfolding put_document
  put_document-refused slot format none s h = refl
  put_document-refused slot format (some bytes) s h =
      text_put-Kept slot format (from_utf8 bytes) s h
