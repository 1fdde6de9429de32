-- ===== src/Lens/Float.antt =====
-- C's `double`, which the model does not define: a type with the operations that the lenses use.
use optics.Base.{ℕ, Bool, false, not, ◌≡◌, refl, ◌+◌, ◌-◌, ◌*◌, ◌/◌, ◌==◌, ltb, leb}

pub record Float : Type 1 where
  pub D : Type 0
  pub nil : D  -- 0.0
  pub lt : D → D → Bool
  pub ge : D → D → Bool
  pub eq : D → D → Bool
  pub add : D → D → D
  pub sub : D → D → D
  pub mul : D → D → D
  pub div : D → D → D
  pub of_nat : ℕ → D  -- the conversion from an unsigned integer
  pub of_int : ℕ → D  -- the conversion from a 64-bit pattern read as a signed integer
  pub to_bits : D → ℕ  -- `pun_dtoi`
  pub of_bits : ℕ → D  -- `pun_itod`
  pub of_bits-to_bits : (d : D) → of_bits (to_bits d) ≡ d

-- A value that is not NaN: of `<` and `>=` against any integer exactly one holds.
abbrev pub IsNumber : (F : Float) → Float.D F → Type 0
IsNumber F v = (n : ℕ) → Float.ge F v (Float.of_nat F n) ≡ not (Float.lt F v (Float.of_nat F n))

-- NaN: no comparison against an integer holds.
abbrev pub IsNan : (F : Float) → Float.D F → Type 0
IsNan F v =
    (n : ℕ) → (Float.ge F v (Float.of_nat F n) ≡ false) × (Float.lt F v (Float.of_nat F n) ≡ false)

-- whole numbers in place of doubles
abbrev pub whole : Float
whole = record {
  D = ℕ;
  nil = 0;
  lt = ltb;
  ge = λ a b. leb b a;
  eq = ◌==◌;
  add = ◌+◌;
  sub = ◌-◌;
  mul = ◌*◌;
  div = ◌/◌;
  of_nat = λ n. n;
  of_int = λ n. n;
  to_bits = λ d. d;
  of_bits = λ d. d;
  of_bits-to_bits = λ d. refl;
}
