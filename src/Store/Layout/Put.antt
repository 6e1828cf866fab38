-- ===== src/Store/Layout/Put.antt =====
-- The answers directory as a map from slots and formats to texts: what `put` does to it.
use rescriptum.Prelude.{
  ℕ, Bool, true, false, ◌&&◌, [], Option, none, some, Str, if◌then◌else◌, str_eq, str_eq_iff,
  str_eq_self, to_ascii_lowercase, ◌≡◌, refl, sym, ap, ◌∙◌, arith, Bool-cases, Option-cases, inl,
  inr,
}
use mathlib.Core.Path.{subst}
use rescriptum.Prelude.Result.{Result}
use rescriptum.Admin.Write.{Slot, machine, group, fallback, valid_id, valid_format}
use rescriptum.Store.File.{Folder, Fault, StoreError, invalid_id, invalid_machine_id, put_in}
use rescriptum.Store.File.Served.{served}
use rescriptum.Store.File.Put.{is_ok, updated, served-put_in}
use rescriptum.Store.Layout.{
  Root, groups_dir, default_dir, valid_machine_id, with_dir, outer_fails, put_at, refused,
  put_document,
}
use rescriptum.Store.Layout.Dirs.{look, seen_in, child-with_dir_other, look-with_dir}

-- what the directory of a slot serves in a format
unfoldable pub document : Slot → Str → Root → Option Str
unfolding served
document (machine id) g = look id (λ x. served x g)
document (group name) g = look groups_dir (look name (λ x. served x g))
document fallback g = look default_dir (λ x. served x g)

abbrev pub same_slot : Slot → Slot → Bool
same_slot (machine a) (machine b) = str_eq a b
same_slot (group a) (group b) = str_eq a b
same_slot fallback fallback = true
same_slot _ _ = false

-- the abstract store: a map, and one document of it replaced where the write is done
abbrev pub written_to :
    Bool → Slot → Str → Str → (Slot → Str → Option Str) → Slot → Str → Option Str
written_to done slot format body m slot' g =
    updated (done && same_slot slot slot') format body (m slot' g) g

-- a machine's directory is none of those that the layout keeps
pub machine_apart :
    (id : Str)
    → valid_machine_id id ≡ true
    → (str_eq id groups_dir ≡ false) × (str_eq id default_dir ≡ false)
unfolding valid_machine_id
machine_apart id h = (other groups_dir (ground arith), other default_dir (ground arith))
  where
    other : (n : Str) → valid_machine_id n ≡ false → str_eq id n ≡ false
    other n reserved = elim (Bool-cases (str_eq id n)) [
      | inr apart ↦ apart
      | inl same ↦
          let e = subst (λ i. valid_machine_id i ≡ true) ((str_eq_iff id n).0 same) h in
          absurd (ground arith)
    ]

pub accepted : (id : Str) → refused (machine id) ≡ none → valid_machine_id id ≡ true
unfolding refused
accepted id h = elim (Bool-cases (valid_machine_id id)) [
  | inl fine ↦ fine
  | inr bad ↦ absurd (refusal (valid_machine_id id) (valid_id id) bad h)
]
  where
    refusal :
        (a b : Bool)
        → a ≡ false
        → (if a then none else if b then some (invalid_machine_id id) else some (invalid_id id))
          ≡ none
        → ⊥
    refusal true b e h = cc
    refusal false true e h = cc
    refusal false false e h = cc

pub str_eq_swap : (a b : Str) → str_eq a b ≡ false → str_eq b a ≡ false
str_eq_swap a b h = elim (Bool-cases (str_eq b a)) [
  | inr other ↦ other
  | inl same ↦
      let e : str_eq a b ≡ true =
        subst (λ x. str_eq x b ≡ true) ((str_eq_iff b a).0 same) (str_eq_self b) in
      absurd (ground arith)
]

pub served_nothing : (D : Type 0) (g : Str) → served {D = D} [] g ≡ none
unfolding served
served_nothing D g = refl

pub and_true : (b : Bool) → (b && true) ≡ b
and_true b = ground arith

never :
    (b : Bool) (format body : Str) (old : Option Str) (g : Str)
    → updated (b && false) format body old g ≡ old
never true format body old g = refl
never false format body old g = refl

module _ (fault : Fault) (pid seq : ℕ) (format body g : Str) (valid : valid_format format ≡ true)
    (small : to_ascii_lowercase format ≡ format) where
  abbrev change : Bool → Option Str → Option Str
  change done old = updated done format body old g

  put_into :
      {D : Type 0} (fails : Bool) (n : Str) (d : Folder (Folder D))
      → look n (λ x. served x g) (with_dir fails n [] (put_in fault pid seq format body) d).0
        ≡ change
            (is_ok (with_dir fails n [] (put_in fault pid seq format body) d).1)
            (look n (λ x. served x g) d)
  put_into fails n d =
      look-with_dir n [] (put_in fault pid seq format body) fails (λ x. served x g) change d
        (served_nothing _ g) refl (λ x. served-put_in fault pid seq format body x g valid small)

  -- the answer for the slot that is written, and for another
  here :
      (b done : Bool) (old new : Option Str)
      → b ≡ true
      → new ≡ change done old
      → new ≡ change (done && b) old
  here b done old new same e =
      e ∙ ap (λ c. change c old) (sym (and_true done) ∙ ap (λ c. done && c) (sym same))

  elsewhere :
      (b done : Bool) (old new : Option Str) → b ≡ false → new ≡ old → new ≡ change (done && b) old
  elsewhere b done old new other e =
      e ∙ sym (never done format body old g) ∙ ap (λ c. change (done && c) old) (sym other)

  -- one directory written, another looked into
  level :
      {D : Type 0} (fails : Bool) (n m : Str) (d : Folder (Folder D))
      → look m (λ x. served x g) (with_dir fails n [] (put_in fault pid seq format body) d).0
        ≡ change
            (is_ok (with_dir fails n [] (put_in fault pid seq format body) d).1 && str_eq n m)
            (look m (λ x. served x g) d)
  level fails n m d =
      let r = with_dir fails n [] (put_in fault pid seq format body) d in
      elim (Bool-cases (str_eq n m)) [
        | inl same ↦
            here (str_eq n m) (is_ok r.1) (look m (λ x. served x g) d)
              (look m (λ x. served x g) r.0) same
              (subst
                (λ k.
                  look k (λ x. served x g) r.0 ≡ change (is_ok r.1) (look k (λ x. served x g) d))
                ((str_eq_iff n m).0 same) (put_into fails n d))
        | inr other ↦
            elsewhere (str_eq n m) (is_ok r.1) (look m (λ x. served x g) d)
              (look m (λ x. served x g) r.0) other
              (ap (seen_in (λ x. served x g))
                (child-with_dir_other n [] (put_in fault pid seq format body) fails m d other))
      ]

  -- a directory of another name is untouched by whatever is done
  aside :
      {D R : Type 0} (fails : Bool) (n m : Str) (fresh : D) (act : D → D × Result StoreError R)
      (see : D → Option Str) (d : Folder D)
      → str_eq n m ≡ false
      → look m see (with_dir fails n fresh act d).0
        ≡ change (is_ok (with_dir fails n fresh act d).1 && false) (look m see d)
  aside fails n m fresh act see d other =
      ap (seen_in see) (child-with_dir_other n fresh act fails m d other)
      ∙ sym (never (is_ok (with_dir fails n fresh act d).1) format body (look m see d) g)

  document-put_at :
      (inner : Bool) (slot slot' : Slot) (root : Root)
      → refused slot ≡ none
      → refused slot' ≡ none
      → document slot' g (put_at inner fault pid seq slot format body root).0
        ≡ change
            (is_ok (put_at inner fault pid seq slot format body root).1 && same_slot slot slot')
            (document slot' g root)
  unfolding document
  document-put_at inner (machine a) (machine b) root p q = level (outer_fails fault) a b root
  document-put_at inner (machine a) (group b) root p q =
      aside (outer_fails fault) a groups_dir [] (put_in fault pid seq format body)
        (look b (λ x. served x g)) root (machine_apart a (accepted a p)).0
  document-put_at inner (machine a) fallback root p q =
      aside (outer_fails fault) a default_dir [] (put_in fault pid seq format body)
        (λ x. served x g) root (machine_apart a (accepted a p)).1
  document-put_at inner (group a) (machine b) root p q =
      aside (outer_fails fault) groups_dir b []
        (with_dir inner a [] (put_in fault pid seq format body)) (λ x. served x g) root
        (str_eq_swap b groups_dir (machine_apart b (accepted b q)).0)
  document-put_at inner (group a) (group b) root p q =
      look-with_dir groups_dir [] (with_dir inner a [] (put_in fault pid seq format body))
        (outer_fails fault) (look b (λ x. served x g)) (λ done old. change (done && str_eq a b) old)
        root refl refl (λ x. level inner a b x)
  document-put_at inner (group a) fallback root p q =
      aside (outer_fails fault) groups_dir default_dir []
        (with_dir inner a [] (put_in fault pid seq format body)) (λ x. served x g) root refl
  document-put_at inner fallback (machine b) root p q =
      aside (outer_fails fault) default_dir b [] (put_in fault pid seq format body)
        (λ x. served x g) root (str_eq_swap b default_dir (machine_apart b (accepted b q)).1)
  document-put_at inner fallback (group b) root p q =
      aside (outer_fails fault) default_dir groups_dir [] (put_in fault pid seq format body)
        (look b (λ x. served x g)) root refl
  document-put_at inner fallback fallback root p q =
      level (outer_fails fault) default_dir default_dir root

-- The answers directory is a map from slots and formats to texts: after a `put` of a document, in
-- a format that is spelled in lower case, whatever the file system does, the map is the one
-- before with that document replaced where the `put` reports success, and the one before where
-- it reports an error, seen from every slot whose identifier is accepted.
pub document-put_document :
    (inner : Bool) (fault : Fault) (pid seq : ℕ) (slot : Slot) (format body : Str) (root : Root)
    (slot' : Slot) (g : Str)
    → to_ascii_lowercase format ≡ format
    → refused slot' ≡ none
    → document slot' g (put_document inner fault pid seq slot format body root).0
      ≡ written_to
          (is_ok (put_document inner fault pid seq slot format body root).1)
          slot
          format
          body
          (λ s f. document s f root)
          slot'
          g
unfolding put_document
document-put_document inner fault pid seq slot format body root slot' g small accepts =
    elim (Option-cases (refused slot)) [
      | inr (e, told) ↦ rw (told, put_document) refl
      | inl fine ↦ elim (Bool-cases (valid_format format)) [
        | inr unknown ↦ rw (fine, unknown, put_document) refl
        | inl valid ↦
            rw (fine, valid, put_document)
              (document-put_at fault pid seq format body g valid small inner slot slot' root fine
                accepts)
      ]
    ]
