-- ===== src/Base/Tables.antt =====
-- A Boolean test of every number below a bound, by evaluation.
use Prim.Native.Nat.{ℕ, zero, suc, ◌<◌}
use mathlib.Core.Path.{◌≡◌}
use native.Mathlib.Omega.{arith}
use mathlib.Core.Bool.{◌&&◌, true, Bool}

module _ (test : ℕ → Bool) where
  unfoldable pub passes_below : ℕ → Bool
  passes_below zero = true
  passes_below (suc bound) = passes_below bound && test bound

  -- What passes below a bound passes at each number there.
  pub passes_below_at : (bound : ℕ) {k : ℕ} → k < bound → passes_below bound ≡ true → test k ≡ true
  unfolding passes_below
  passes_below_at zero below all = absurd (omega (arith, below))
  passes_below_at (suc bound) {k} below all = ground (arith, passes_below_at bound {k = k})
