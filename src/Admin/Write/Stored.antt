-- ===== src/Admin/Write/Stored.antt =====
-- A document that is reported as stored was written, and nothing was written behind it.
use rescriptum.Prelude.{
  Bool, true, false, not, ◌&&◌, Option, none, some, Str, Bytes, codes, ◌≡◌, refl, sym, ap, ◌∙◌,
  arith, Bool-cases, Option-cases, inl, inr,
}
use mathlib.Core.Path.{subst}
use rescriptum.Prelude.Result.{ok}
use rescriptum.Prelude.Utf8.{from_utf8}
use rescriptum.Format.{for_extension, Kind}
use rescriptum.Select.Docs.{Docs}
use rescriptum.Admin.Write.{
  Slot, Store, Reply, stored, deleted, too_large, not_utf8, invalid_id, not_found, invalid_format,
  internal, rejected, conflict, apply, guarded, text_put, parsed_put, put_document, valid_id,
  valid_format, is_fallback, id_of,
}
use rescriptum.Admin.Write.Refused.{Result-cases}
use rescriptum.Admin.Write.Rollback.{
  Outcome, unread, refused, missing, kept, undone, guarded-Outcome,
}

abbrev pub is_stored : Reply → Bool
is_stored (stored _) = true
is_stored (deleted _) = false
is_stored too_large = false
is_stored not_utf8 = false
is_stored invalid_id = false
is_stored not_found = false
is_stored (invalid_format _) = false
is_stored (internal _) = false
is_stored (rejected _) = false
is_stored (conflict _) = false

module _ (D : Docs) (S : Store) where
  open D use {parse}
  open S use {State}

  Outcome-stored :
      (slot : Slot) (format body : Str) (s : State) (r : State × Reply)
      → Outcome D S slot format (some body) s r
      → is_stored r.1 ≡ true
      → (there : Bool) × (apply D S slot format (some body) s ≡ (ok there, r.0))
  Outcome-stored slot format body s _ (unread e) h = absurd (ground arith)
  Outcome-stored slot format body s _ (refused e a) h = absurd (ground arith)
  Outcome-stored slot format body s _ (missing a) h = absurd (ground arith)
  Outcome-stored slot format body s _ (kept before after there p a q n) h = (there, a)
  Outcome-stored slot format body s _ (undone before after taken there p ps u v a q n) h =
      absurd (ground arith)

  unstored : (r q : State × Reply) → r ≡ q → is_stored q.1 ≡ false → is_stored r.1 ≡ true → ⊥
  unstored r q e other h =
      let yes_too = subst (λ r. is_stored r.1 ≡ true) e h in absurd (ground (arith, other, yes_too))

  parsed-stored :
      (slot : Slot) (format body : Str) (k : Option Kind) (s : State)
      → is_stored (parsed_put D S slot format body k s).1 ≡ true
      → parsed_put D S slot format body k s ≡ guarded D S slot format (some body) s
  parsed-stored slot format body none s h = absurd (ground arith)
  parsed-stored slot format body (some kind) s h =
      elim (Result-cases (parse kind body (codes "document"))) [
        | inl (doc, fine) ↦ rw (fine, parsed_put) refl
        | inr (e, broken) ↦
            let told : parsed_put D S slot format body (some kind) s ≡ (s, rejected e) =
              rw (broken, parsed_put) refl in
            absurd
              (unstored (parsed_put D S slot format body (some kind) s) (s, rejected e) told refl h)
      ]

  text-stored :
      (slot : Slot) (format body : Str) (s : State)
      → is_stored (text_put D S slot format (some body) s).1 ≡ true
      → text_put D S slot format (some body) s ≡ guarded D S slot format (some body) s
  text-stored slot format body s h =
      let result = text_put D S slot format (some body) s in
      elim (Bool-cases (not (is_fallback slot) && not (valid_id (id_of slot)))) [
        | inl bad ↦ absurd (unstored result (s, invalid_id) (rw bad refl) refl h)
        | inr fine ↦ elim (Bool-cases (not (valid_format format))) [
          | inl odd ↦
              absurd (unstored result (s, invalid_format format) (rw (fine, odd) refl) refl h)
          | inr known ↦
              let parsed : result ≡ parsed_put D S slot format body (for_extension format) s =
                rw (fine, known) refl in
              parsed
              ∙ parsed-stored slot format body (for_extension format) s
                  (subst (λ r. is_stored r.1 ≡ true) parsed h)
        ]
      ]

  pub put_document-stored :
      (slot : Slot) (format : Str) (bytes : Bytes) (s : State)
      → is_stored (put_document D S slot format (some bytes) s).1 ≡ true
      → (body : Str) × (from_utf8 bytes ≡ some body)
        × ((there : Bool) × (apply D S slot format (some body) s
              ≡ (ok there, (put_document D S slot format (some bytes) s).0)))
  unfolding put_document
  put_document-stored slot format bytes s h =
      let result = put_document D S slot format (some bytes) s in
      elim (Option-cases (from_utf8 bytes)) [
        | inl garbled ↦
            absurd (unstored result (s, not_utf8) (rw (garbled, put_document) refl) refl h)
        | inr (body, text) ↦
            let read : result ≡ text_put D S slot format (some body) s =
              rw (text, put_document) refl in
            let same : result ≡ guarded D S slot format (some body) s =
              read ∙ text-stored slot format body s (subst (λ r. is_stored r.1 ≡ true) read h) in
            let done =
              Outcome-stored slot format body s (guarded D S slot format (some body) s)
                (guarded-Outcome D S slot format (some body) s)
                (subst (λ r. is_stored r.1 ≡ true) same h) in
            (body, text, (done.0, done.1 ∙ ap (λ r. (ok done.0, r.0)) (sym same)))
      ]
