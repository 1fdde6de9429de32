-- ===== src/Buffer/Tests.antt =====
-- Runs of the buffer's operations on a short block.
use optics.Base.{ℕ, ◌≡◌, refl, List, [], ◌∷◌, arith, some, ok, double_until}
use optics.Buffer
use optics.Buffer.{Buffer}
use optics.Buffer.Contents.{IsValid}

abbrev ab : Buffer
ab = record { bytes = 97 ∷ 98 ∷ 0 ∷ []; len = 2; cap = 3 }

ab-IsValid : IsValid ab
ab-IsValid = record { block = refl; within = omega arith }

abbrev text : List ℕ
text = 120 ∷ 121 ∷ 122 ∷ []

printed :
    Buffer.printf ab (some text)
    ≡ ok (record { bytes = 97 ∷ 98 ∷ 120 ∷ 121 ∷ 122 ∷ 0 ∷ []; len = 5; cap = 6 })
unfolding Buffer.printf Buffer.retry Buffer.rewrite Buffer.vsnprintf Buffer.reserve Buffer.grown
    double_until
printed = refl
