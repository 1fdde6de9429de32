-- ===== src/Base/Power.antt =====
-- Powers of two up to 2^63, the capacities that doubling reaches.
use Prim.Native.Nat.{ℕ, zero, suc, ◌+◌, ◌-◌, ◌*◌, ◌%◌, ◌^◌, ◌≤◌, ◌<◌, ◌∣◌}
use mathlib.Core.Path.{◌≡◌, sym, ap, ◌∙◌, subst}
use mathlib.Core.Logic.{inl, inr, ◌⊎◌}
use native.Mathlib.Omega.{arith}
use native.Mathlib.Nat.{
  pow-suc, mod-add-mod, mod-eq_of_lt, mod-eq-sub-mod, mod-mod_of_dvd, dvd-mul_right,
}
use native.Mathlib.Decide.{dec_lt}
use optics.Base.Compare.{ltb, Bool-cases, ltb→lt}
use optics.Base.Doubling.{double_until}

-- `n` is a power of two: some number of doublings takes it to 2^63
abbrev pub IsPow2 : ℕ → Type 0
IsPow2 n = (k : ℕ) × (n * 2 ^ k ≡ 2 ^ 63)

IsPow2-double : (n : ℕ) → n < 2 ^ 63 → IsPow2 n → IsPow2 (n * 2)
IsPow2-double n lt (zero, e) = absurd (omega arith)
IsPow2-double n lt (suc k, e) = (k, omega (arith, e, ap (λ (t : ℕ). n * t) (pow-suc 2 k)))

pub double_until-IsPow2 :
    (fuel bound n : ℕ) → bound ≤ 2 ^ 63 → IsPow2 n → IsPow2 (double_until fuel bound n)
unfolding double_until
double_until-IsPow2 zero bound n small p = p
double_until-IsPow2 (suc fuel) bound n small p = elim (Bool-cases (ltb n bound)) [
  | inr done ↦ let step : double_until (suc fuel) bound n ≡ n = ground arith in rw step p
  | inl more ↦
      let lt : n < bound = ltb→lt n bound more in
      let e : n * 2 % 2 ^ 64 ≡ n * 2 = omega arith in
      let step : double_until (suc fuel) bound n ≡ double_until fuel bound (n * 2) = ground arith in
      rw step (double_until-IsPow2 fuel bound (n * 2) small (IsPow2-double n (omega arith) p))
]

pub mod-mod_pow2 : (a n : ℕ) → IsPow2 n → a % 2 ^ 64 % n ≡ a % n
mod-mod_pow2 a n p =
    mod-mod_of_dvd n {b = 2 ^ 64} a
      (subst (λ m. n ∣ m) (omega (arith, p.1)) (dvd-mul_right n (2 ^ p.0 * 2)))

small_mod : (s n : ℕ) → s < n + n → ((s % n ≡ s) × (s < n)) ⊎ ((s % n ≡ s - n) × (n ≤ s))
small_mod s n h = elim (dec_lt s n) [
  | yes lt ↦ inl (mod-eq_of_lt lt, lt)
  | no ge ↦
      let le : n ≤ s = omega arith in
      let lt : s - n < n = omega arith in inr (mod-eq-sub-mod le ∙ mod-eq_of_lt lt, le)
]

-- Steps short of the modulus lead to different remainders.
pub add-mod_injective : (h a b n : ℕ) → a < n → b < n → (h + a) % n ≡ (h + b) % n → a ≡ b
add-mod_injective h a b n ha hb e =
    let x : ℕ = h % n in
    let lt : x < n = omega arith in
    let e' : (x + a) % n ≡ (x + b) % n = mod-add-mod h n a ∙ e ∙ sym (mod-add-mod h n b) in
    omega (arith, e', small_mod (x + a) n (omega arith), small_mod (x + b) n (omega arith))
