-- ===== src/Alloc/Classes.antt =====
-- src/alloc.c: `alloc_class`, the classes of sizes.
use optics.Base.{
  ℕ, ◌+◌, ◌-◌, ◌*◌, ◌%◌, ◌^◌, ◌≤◌, ◌<◌, ◌≡◌, refl, Bool, true, false, ◌&&◌, arith, ltb, leb, ◌==◌,
  if◌then◌else◌, Run, ok, abort, passes_below, passes_below_at,
}
use optics.Bits.{ceil_div, ceil_pow2, ctz}
use optics.Alloc.{class_of}

-- the length of the blocks of a class
pub size_of : ℕ → ℕ
size_of class = if class == 0 then 8 else if leb class 16 then class * 16 else 2 ^ (class + 8 - 16)

checked : ℕ → Run (ℕ × ℕ) → Bool
checked len abort = false
checked len (ok (len', class)) =
    leb len len' && ltb class 21 && len' % 8 == 0 && leb 8 len' && len' == size_of class

classified : ℕ → Bool
unfolding checked
classified len = checked len (class_of len)

table : passes_below classified 4097 ≡ true
unfolding passes_below classified class_of size_of ceil_div ceil_pow2 ctz
table = refl

-- the class of a length, and what the code relies on of it
pub record Class (len len' class : ℕ) : Type 0 where
  pub enough : len ≤ len'
  pub few : class < 21
  pub words : len' % 8 ≡ 0
  pub room : 8 ≤ len'
  pub size : len' ≡ size_of class

checked-Class :
    (len : ℕ) (r : Run (ℕ × ℕ))
    → checked len r ≡ true
    → (len' : ℕ) × (class : ℕ) × (r ≡ ok (len', class)) × Class len len' class
unfolding checked
checked-Class len abort h = cc
checked-Class len (ok (len', class)) h = (len', class, refl, ground arith)

-- Every length up to 4096 has one of the 21 classes without an abort, whose blocks are at least
-- that long, whole words, at least one, and of one length for the class.
pub class_of-Class :
    (len : ℕ)
    → len ≤ 4096
    → (len' : ℕ) × (class : ℕ) × (class_of len ≡ ok (len', class)) × Class len len' class
unfolding classified
class_of-Class len h =
    checked-Class len (class_of len) (passes_below_at classified 4097 (omega arith) table)
