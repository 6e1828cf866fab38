-- ===== src/Prelude/Utf8/Ascii.antt =====
-- ASCII text is its own encoding.
use Prim.Native.Nat.{ℕ}
use mathlib.Core.List.{[], ◌∷◌}
use mathlib.Core.Bool.{Bool, true}
use mathlib.Core.Path.{◌≡◌, refl, ap}
use native.Mathlib.Omega.{arith}
use rescriptum.Prelude.Tests.{ltb}
use rescriptum.Prelude.Lists.{all}
use rescriptum.Prelude.Text.{Str}
use rescriptum.Prelude.Utf8.{encode, from_utf8_lossy, replace, head}

abbrev pub is_ascii : ℕ → Bool
is_ascii c = ltb c 128

pub encode-ascii : (s : Str) → all is_ascii s ≡ true → encode s ≡ s
encode-ascii [] h = refl
encode-ascii (c ∷ s) h =
    let first : ltb c 128 ≡ true = ground arith in
    rw first (ap (λ t. c ∷ t) (encode-ascii s (ground arith)))

pub from_utf8_lossy-ascii : (s : Str) → all is_ascii s ≡ true → from_utf8_lossy s ≡ s
unfolding from_utf8_lossy replace head
from_utf8_lossy-ascii [] h = refl
from_utf8_lossy-ascii (c ∷ s) h =
    let first : ltb c 128 ≡ true = ground arith in
    rw (first, from_utf8_lossy, replace, head)
      (ap (λ t. c ∷ t) (from_utf8_lossy-ascii s (ground arith)))
