-- ===== src/Installed/Claims.antt =====
-- `claiming` and `disarm` of src/installed.rs. The writes of the store are its trait's.
use rescriptum.Prelude.{
  Bool, not, ◌&&◌, List, [], ◌∷◌, ◌++◌, find, filter, Option, none, some, Str, codes, str_eq,
  is_empty, contains,
}
use rescriptum.Prelude.Result.{Result, ok, err}
use rescriptum.Prelude.Utf8.{encode}
use rescriptum.Normalize.{normalize}
use rescriptum.Facts.Labels.{Facts}
use rescriptum.Select.Listing.{MachineEntry}
use rescriptum.Admin.Write.{Store, machine}

abbrev pub claims_machine : Facts → Str × Str → Bool
claims_machine facts (id, format) =
    let needle = normalize (encode id) in
    str_eq format (codes "ipxe") && (not (is_empty needle) && contains facts.haystack needle)

-- of the machine documents, as (identifier, format)
unfoldable pub claiming : List (Str × Str) → Facts → List (Str × Str)
unfolding normalize
claiming documents facts = filter (claims_machine facts) documents

abbrev pub disarmed_prefix : Str
disarmed_prefix = codes "installed-"

abbrev body_of : Option MachineEntry → Option Str
body_of none = none
body_of (some m) = some m.body

module _ (S : Store) where
  open S use {State, snapshot, put, delete}

  unfoldable pub read_machine : State → Str → Str → Result Str (Option Str)
  read_machine s id format = elim (snapshot s) [
    | err e ↦ err e
    | ok taken ↦ ok (body_of (find (λ m. str_eq m.id id && str_eq m.format format) taken.machines))
  ]

  -- the write under the new name, and then the deletion; the flag says whether both were done
  unfoldable pub move_machine : State → Str → Str → Str → Result Str (Unit {0}) × State
  move_machine s id format body =
      let (stored, s') = put (machine (disarmed_prefix ++ id)) format body s in
      let (gone, s'') = delete (machine id) format s' in
      elim stored [
        | err e ↦ (err e, s')
        | ok _ ↦ elim gone [ err e ↦ (err e, s'') | ok _ ↦ (ok tt, s'') ]
      ]

  -- the loop over the claims; the first error ends it
  unfoldable pub disarm_loop :
      List (Str × Str) → State → List (Str × Str) → Result Str (List (Str × Str)) × State
  unfolding read_machine move_machine
  disarm_loop [] s moved = (ok moved, s)
  disarm_loop ((id, format) ∷ rest) s moved = elim (read_machine s id format) [
    | err e ↦ (err e, s)
    | ok none ↦ disarm_loop rest s moved
    | ok (some body) ↦
        let (done, s') = move_machine s id format body in
        elim done [
          | err e ↦ (err e, s')
          | ok _ ↦ disarm_loop rest s' (moved ++ (id, disarmed_prefix ++ id) ∷ [])
        ]
  ]

  -- `documents` are the machine documents that the answers list
  unfoldable pub disarm : List (Str × Str) → Facts → State → Result Str (List (Str × Str)) × State
  unfolding disarm_loop claiming
  disarm documents facts s = disarm_loop (claiming documents facts) s []
