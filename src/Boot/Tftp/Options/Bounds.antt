-- ===== src/Boot/Tftp/Options/Bounds.antt =====
-- What the option negotiation can agree to.
use rescriptum.Prelude.{
  ℕ, ◌&&◌, List, [], ◌∷◌, ◌++◌, Option, none, some, Str, codes, str_eq, leb, ◌≤◌, ◌≡◌, refl, arith,
  decimal, parse_unsigned, max_u64, max_u32, All, Bool-cases, inl, inr, ◌⊎◌,
}
use rescriptum.Boot.Tftp.Options.{
  default_block, clamp, tftp_blksize, Agreed, accept, agree_blksize, agree_timeout, agree,
  negotiate,
}
use mathlib.Core.List.{foldl}

-- Whatever the setting, the cap lies between the default block and the largest that fits a frame.
pub tftp_blksize-bounds :
    (setting : Option ℕ) → (512 ≤ tftp_blksize setting) × (tftp_blksize setting ≤ 1468)
unfolding tftp_blksize
tftp_blksize-bounds none = (ground arith, ground arith)
tftp_blksize-bounds (some n) = (ground arith, ground arith)

-- an accepted option is one of the three that are known
abbrev pub Known : Str × Str → Type 0
Known (name, value) = (name ≡ codes "blksize") ⊎ (name ≡ codes "tsize") ⊎ (name ≡ codes "timeout")

-- an agreement within the cap
pub record Within (cap : ℕ) (a : Agreed) : Type 0 where
  pub at_least : 512 ≤ a.block_size
  pub at_most : a.block_size ≤ cap
  pub known : All Known a.accepted

All-snoc :
    (xs : List (Str × Str)) (x : Str × Str) → All Known xs → Known x → All Known (xs ++ x ∷ [])
All-snoc [] x h k = (k, tt)
All-snoc (y ∷ xs) x (h, hs) k = (h, All-snoc xs x hs k)

accept-Within :
    (cap : ℕ) (a : Agreed) (name value : Str)
    → Within cap a
    → Known (name, value)
    → Within cap (accept a name value)
accept-Within cap a name value w k = record {
  at_least = w.at_least;
  at_most = w.at_most;
  known = All-snoc a.accepted (name, value) w.known k;
}

agree_blksize-Within :
    (cap : ℕ) (a : Agreed) (o : Option ℕ)
    → 512 ≤ cap
    → Within cap a
    → Within cap (agree_blksize cap a o)
agree_blksize-Within cap a none le w = w
agree_blksize-Within cap a (some asked) le w = record {
  at_least = ground arith;
  at_most = ground arith;
  known =
      All-snoc a.accepted (codes "blksize", decimal (clamp default_block cap asked)) w.known
        (inl refl);
}

agree_timeout-Within :
    (cap : ℕ) (a : Agreed) (o : Option ℕ) → Within cap a → Within cap (agree_timeout a o)
agree_timeout-Within cap a none w = w
agree_timeout-Within cap a (some n) w = elim (Bool-cases (leb 1 n && leb n 255)) [
  | inl yes_it_is ↦
      rw yes_it_is (accept-Within cap a (codes "timeout") (decimal n) w (inr (inr refl)))
  | inr not_so ↦ rw not_so w
]

agree-Within :
    (cap size : ℕ) (a : Agreed) (o : Str × Str)
    → 512 ≤ cap
    → Within cap a
    → Within cap (agree cap size a o)
unfolding agree
agree-Within cap size a (name, value) le w = elim (Bool-cases (str_eq name (codes "blksize"))) [
  | inl is_blksize ↦ rw is_blksize (agree_blksize-Within cap a (parse_unsigned max_u64 value) le w)
  | inr not_blksize ↦ elim (Bool-cases (str_eq name (codes "tsize"))) [
    | inl is_tsize ↦
        rw (not_blksize, is_tsize)
          (accept-Within cap a (codes "tsize") (decimal size) w (inr (inl refl)))
    | inr not_tsize ↦ elim (Bool-cases (str_eq name (codes "timeout"))) [
      | inl is_timeout ↦
          rw (not_blksize, not_tsize, is_timeout)
            (agree_timeout-Within cap a (parse_unsigned max_u32 value) w)
      | inr not_timeout ↦ rw (not_blksize, not_tsize, not_timeout) w
    ]
  ]
]

fold-Within :
    (cap size : ℕ) (options : List (Str × Str)) (a : Agreed)
    → 512 ≤ cap
    → Within cap a
    → Within cap (foldl (agree cap size) a options)
fold-Within cap size [] a le w = w
fold-Within cap size (o ∷ options) a le w =
    fold-Within cap size options (agree cap size a o) le (agree-Within cap size a o le w)

-- Whatever a client asks for, the agreed block size lies between 512 bytes and the configured cap,
-- and every option acknowledged is `blksize`, `tsize` or `timeout`: never `windowsize`.
pub negotiate-Within :
    (setting : Option ℕ) (size : ℕ) (options : List (Str × Str))
    → Within (tftp_blksize setting) (negotiate (tftp_blksize setting) size options)
unfolding negotiate
negotiate-Within setting size options =
    let (low, high) = tftp_blksize-bounds setting in
    fold-Within (tftp_blksize setting) size options
      (record { block_size = default_block; asked_block = default_block; accepted = [] }) low
      (record { at_least = ground arith; at_most = low; known = tt })
