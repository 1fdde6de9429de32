-- ===== src/Base/Doubling.antt =====
-- `while (n < bound) n *= 2;` over `size_t`, the loop by which buffers, tables and regions grow.
use Prim.Native.Nat.{ℕ, zero, suc, ◌*◌, ◌%◌, ◌^◌, ◌≤◌, ◌<◌}
use mathlib.Core.Path.{◌≡◌, refl, ap}
use mathlib.Core.Logic.{◌⊎◌, inl, inr}
use mathlib.Core.Bool.{true, false}
use native.Mathlib.Omega.{arith}
use native.Mathlib.Nat.{pow-suc}
use optics.Base.Compare.{ltb, Bool-cases, ltb→lt, not-ltb→le}

-- The fuel counts the rounds.
unfoldable pub double_until : ℕ → ℕ → ℕ → ℕ
double_until zero bound n = n
double_until (suc fuel) bound n = elim (ltb n bound) [
  | true ↦ double_until fuel bound (n * 2 % 2 ^ 64)
  | false ↦ n
]

pub record Doubled (bound n r : ℕ) : Type 0 where
  pub reached : bound ≤ r
  pub grown : n ≤ r
  pub tight : (r < 2 * bound) ⊎ (r ≡ n)

-- Where the bound is at most half the range, 64 rounds are enough and no product wraps.
pub double_until_lem :
    (fuel bound n : ℕ)
    → 0 < n
    → bound ≤ 2 ^ 63
    → bound ≤ n * 2 ^ fuel
    → Doubled bound n (double_until fuel bound n)
unfolding double_until
double_until_lem zero bound n pos small enough = record {
  reached = omega arith;
  grown = omega arith;
  tight = inr refl;
}
double_until_lem (suc fuel) bound n pos small enough = elim (Bool-cases (ltb n bound)) [
  | inr done ↦
      let step : double_until (suc fuel) bound n ≡ n = ground arith in
      rw step (record { reached = not-ltb→le n bound done; grown = omega arith; tight = inr refl })
  | inl more ↦
      let lt : n < bound = ltb→lt n bound more in
      let e : n * 2 % 2 ^ 64 ≡ n * 2 = omega arith in
      let step : double_until (suc fuel) bound n ≡ double_until fuel bound (n * 2) = ground arith in
      let d : Doubled bound (n * 2) (double_until fuel bound (n * 2)) =
        double_until_lem fuel bound (n * 2) (omega arith) small
          (omega (arith, pow-suc 2 fuel, ap (λ (t : ℕ). n * t) (pow-suc 2 fuel))) in
      rw step (record {
        reached = d.reached;
        grown = omega (arith, d.grown);
        tight = inl (elim d.tight [ inl lt' ↦ lt' | inr same ↦ omega arith ]);
      })
]
