-- ===== src/Bits.antt =====
-- src/utils/bits.h: bit counts, powers of two and rounding.
pub mod Rounding
mod Tests
use optics.Base.{
  ℕ, zero, suc, ◌+◌, ◌-◌, ◌*◌, ◌/◌, ◌%◌, ◌^◌, bit_and, List, get_or, Bool, true, false, ltb, ◌==◌,
  if◌then◌else◌,
}

-- the number of binary digits, over at most `fuel` of them
unfoldable pub bit_length : ℕ → ℕ → ℕ
bit_length zero x = 0
bit_length (suc fuel) x = elim (x == 0) [ true ↦ 0 | false ↦ suc (bit_length fuel (x / 2)) ]

-- `clz`: `__builtin_clzll`, and 64 at zero
unfoldable pub clz : ℕ → ℕ
unfolding bit_length
clz x = 64 - bit_length 64 x

-- trailing zero digits, over at most `fuel` digits
unfoldable pub trailing : ℕ → ℕ → ℕ
trailing zero x = 0
trailing (suc fuel) x = elim (x % 2 == 0) [ true ↦ suc (trailing fuel (x / 2)) | false ↦ 0 ]

-- `ctz`: `__builtin_ctzll`, and 64 at zero
unfoldable pub ctz : ℕ → ℕ
unfolding trailing
ctz x = trailing 64 x

-- `pop`: the digits that are one
unfoldable pub popcount : ℕ → ℕ → ℕ
popcount zero x = 0
popcount (suc fuel) x = x % 2 + popcount fuel (x / 2)

-- `leading_bit`
unfoldable pub leading_bit : ℕ → ℕ
unfolding clz
leading_bit x = if x == 0 then 0 else bit_and x (2 ^ (63 - clz x))

-- `is_pow2`
unfoldable pub is_pow2 : ℕ → Bool
unfolding popcount
is_pow2 x = popcount 64 x == 1

-- `ceil_pow2`
unfoldable pub ceil_pow2 : ℕ → ℕ
unfolding leading_bit
ceil_pow2 x = if ltb 1 x then leading_bit (x - 1) * 2 % 2 ^ 64 else 1

-- `ceil_div`
unfoldable pub ceil_div : ℕ → ℕ → ℕ
ceil_div n d = if n == 0 then 0 else (n - 1) / d + 1

-- `align`
unfoldable pub align : ℕ → ℕ → ℕ
unfolding ceil_div
align n a = ceil_div n a * a
