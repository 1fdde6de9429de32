-- ===== src/Key/Tests.antt =====
-- Runs of the key's operations.
use optics.Base.{ℕ, ◌≡◌, refl, List, [], ◌∷◌, ◌++◌, arith, replicate, ok, abort}
use optics.Key
use optics.Key.{Key}
use optics.Key.Text.{text, IsValid, pop-abort, pop-push}

abbrev cpu : List ℕ
cpu = b'c' ∷ b'p' ∷ b'u' ∷ []

abbrev user : List ℕ
user = b'u' ∷ b's' ∷ b'e' ∷ b'r' ∷ []

abbrev cpu_key : Key
cpu_key = record { len = 3; bytes = cpu ++ replicate 253 0 }

abbrev user_key : Key
user_key = record { len = 8; bytes = (cpu ++ b'.' ∷ user) ++ replicate 248 0 }

cpu_key-IsValid : IsValid cpu_key
cpu_key-IsValid = record { size = refl; fits = omega arith; ended = refl }

push_run : Key.push cpu_key user ≡ ok (user_key, 3)
unfolding Key.push Key.strlcpy
push_run = refl

pop-abort_example : Key.pop cpu_key 4 ≡ abort
pop-abort_example = pop-abort cpu_key 4 (omega arith)

pop-push_example :
    (key'' : Key) × (Key.pop user_key 3 ≡ ok key'') × IsValid key'' × (text key'' ≡ text cpu_key)
pop-push_example = pop-push user cpu_key-IsValid push_run
