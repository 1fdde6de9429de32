-- ===== src/Base/Outcome.antt =====
-- The outcome of code that may call `abort` through `optics_assert` and its kin.
use mathlib.Core.Path.{◌≡◌, refl}
use mathlib.Core.Option.{some}
use mathlib.Core.Bool.{Bool, true, false}

-- `abort` is a failed assertion (`optics_abort`).
pub data Run {ℓ} (A : Type ℓ) : Type ℓ where
  ok : A → Run A
  abort : Run A

infixl 5 ◌>>=◌ ◌>>◌
abbrev pub ◌>>=◌ {ℓ κ} : {A : Type ℓ} {B : Type κ} → Run A → (A → Run B) → Run B
ok x >>= rest = rest x
abort >>= rest = abort

abbrev pub ◌>>◌ {ℓ} : {B : Type ℓ} → Run (Unit {0}) → Run B → Run B
m >> k = m >>= λ _. k

-- `optics_assert(test, ...)`
abbrev pub assert : Bool → Run (Unit {0})
assert true = ok tt
assert false = abort

pub >>=-eq-ok {ℓ κ} :
    {A : Type ℓ} {B : Type κ} (first : Run A) (rest : A → Run B) {last : B}
    → (first >>= rest) ≡ ok last
    → (mid : A) × (first ≡ ok mid) × (rest mid ≡ ok last)
>>=-eq-ok (ok mid) rest run = (mid, refl, run)
>>=-eq-ok abort rest run = cc

pub >>=-congr {ℓ κ} :
    {A : Type ℓ} {B : Type κ} (m : Run A) (f g : A → Run B)
    → ((a : A) → m ≡ ok a → f a ≡ g a)
    → (m >>= f) ≡ (m >>= g)
>>=-congr (ok a) f g h = h a refl
>>=-congr abort f g h = refl

pub ok_inj {ℓ} : {A : Type ℓ} {a b : A} → ok a ≡ ok b → a ≡ b
ok_inj h = cc

pub some_inj {ℓ} : {A : Type ℓ} {a b : A} → some a ≡ some b → a ≡ b
some_inj h = cc
