-- ===== src/Base/Strings.antt =====
-- C strings as lists of bytes, and the comparison that `strcmp` and `strncmp` make.
use Prim.Native.Nat.{ℕ}
use Prim.Native.Char.{code}
use Prim.Native.String.{String, [], ◌∷◌}
use mathlib.Core.Path.{◌≡◌, refl}
use mathlib.Core.Bool.{Bool, true, false, ◌&&◌}
use mathlib.Core.List.{List, [], ◌∷◌}
use native.Mathlib.Omega.{arith}
use optics.Base.Compare.{◌==◌}

abbrev pub Text : Type 0
Text = List ℕ

-- the bytes of an ASCII literal
abbrev pub bytes : String → Text
bytes [] = []
bytes (c ∷ s) = code c ∷ bytes s

-- `strcmp(a, b) == 0`
unfoldable pub str_eq : Text → Text → Bool
str_eq [] [] = true
str_eq [] (y ∷ ys) = false
str_eq (x ∷ xs) [] = false
str_eq (x ∷ xs) (y ∷ ys) = x == y && str_eq xs ys

pub str_eq_refl : (a : Text) → str_eq a a ≡ true
unfolding str_eq
str_eq_refl [] = refl
str_eq_refl (x ∷ xs) = ground (arith, str_eq_refl xs)

pub str_eq_eq : (a b : Text) → str_eq a b ≡ true → a ≡ b
unfolding str_eq
str_eq_eq [] [] h = refl
str_eq_eq [] (y ∷ ys) h = cc
str_eq_eq (x ∷ xs) [] h = cc
str_eq_eq (x ∷ xs) (y ∷ ys) h = ground (arith, str_eq_eq xs ys)

pub str_eq_symm : (a b : Text) → str_eq a b ≡ str_eq b a
unfolding str_eq
str_eq_symm [] [] = refl
str_eq_symm [] (y ∷ ys) = refl
str_eq_symm (x ∷ xs) [] = refl
str_eq_symm (x ∷ xs) (y ∷ ys) = ground (arith, str_eq_symm xs ys)
