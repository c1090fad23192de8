-- ===== src/Prelude/Tables.antt =====
-- Facts about a byte, checked for each of its values.
use Prim.Native.Nat.{ℕ, zero, suc, ◌<◌}
use mathlib.Core.Path.{◌≡◌}
use mathlib.Core.Bool.{Bool, true, ◌&&◌}
use native.Mathlib.Omega.{arith}

unfoldable pub every : ℕ → (ℕ → Bool) → Bool
every zero test = true
every (suc n) test = every n test && test n

pub every_lem : (test : ℕ → Bool) (n k : ℕ) → every n test ≡ true → k < n → test k ≡ true
unfolding every
every_lem test zero k h l = absurd (omega arith)
every_lem test (suc n) k h l = ground (arith, every_lem test n k)
