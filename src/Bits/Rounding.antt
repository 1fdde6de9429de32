-- ===== src/Bits/Rounding.antt =====
-- src/utils/bits.h: `align`, which rounds up to a multiple.
use native.Mathlib.Nat.{mul-mod_left}
use optics.Base.{
  ℕ, ◌+◌, ◌-◌, ◌*◌, ◌/◌, ◌%◌, ◌≤◌, ◌<◌, ◌≡◌, ◌≢◌, inl, inr, arith, ◌==◌, Bool-cases, ==_eq,
  not-==→ne,
}
use optics.Bits.{align}

-- Rounding up to a positive unit gives a multiple of it that is no smaller, and less than one unit
-- larger.
pub align_lem : (n a : ℕ) → 0 < a → (align n a % a ≡ 0) × (n ≤ align n a) × (align n a < n + a)
unfolding align
align_lem n a pos = elim (Bool-cases (n == 0)) [
  | inl z ↦ let e : n ≡ 0 = ==_eq _ _ z in rw z (omega (arith, e))
  | inr nz ↦
      let ne : n ≢ 0 = not-==→ne _ _ nz in
      let m : (n - 1) / a * a ≤ n - 1 = grind arith in
      let m' : n - 1 < (n - 1) / a * a + a = grind arith in
      let r : ((n - 1) / a + 1) * a ≡ (n - 1) / a * a + a = omega arith in
      rw nz (mul-mod_left _ _, omega (arith, r), omega (arith, r))
]
