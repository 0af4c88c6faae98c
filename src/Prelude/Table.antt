-- ===== src/Prelude/Table.antt =====
-- Facts about all bytes, checked by evaluation.
use Prim.Native.Nat.{ℕ, zero, suc, ◌<◌}
use mathlib.Core.Path.{◌≡◌}
use mathlib.Core.Bool.{Bool, true, ◌&&◌}
use native.Mathlib.Omega.{arith}

unfoldable pub holds_below : ℕ → (ℕ → Bool) → Bool
holds_below zero test = true
holds_below (suc n) test = test n && holds_below n test

pub by_table :
    (n : ℕ) (test : ℕ → Bool) → holds_below n test ≡ true → (i : ℕ) → i < n → test i ≡ true
unfolding holds_below
by_table zero test h i lt = absurd (omega arith)
by_table (suc n) test h i lt = ground (arith, by_table n test (ground arith) i)
