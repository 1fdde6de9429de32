-- ===== src/Optics/Links.antt =====
-- src/optics.c and src/lens.c: the doubly linked list of the lenses.
pub mod Push
pub mod Unlink
pub mod Remove
pub mod Visit
use optics.Base.{ℕ, ◌≡◌, ◌≢◌, refl, sym, ◌∙◌, ap, List, [], ◌∷◌, ◌++◌, All, All-map, arith}
use optics.Optics.{Header}

-- The list that starts at `head`, behind the lens `prev`, has the lenses `l`.
abbrev pub Linked : (ℕ → Header) → ℕ → ℕ → List ℕ → Type 0
Linked m prev head [] = head ≡ 0
Linked m prev head (x ∷ l) =
    (head ≡ x) × (x ≢ 0) × ((m x).off ≡ x) × ((m x).prev ≡ prev) × Linked m x (m x).next l

abbrev pub Distinct : List ℕ → Type 0
Distinct [] = Unit
Distinct (x ∷ l) = All (λ y. y ≢ x) l × Distinct l

-- two headers of the same place in the list
abbrev pub Same : (ℕ → Header) → (ℕ → Header) → ℕ → Type 0
Same m m' x = ((m' x).off ≡ (m x).off) × ((m' x).prev ≡ (m x).prev) × ((m' x).next ≡ (m x).next)

pub Linked-Same :
    (m m' : ℕ → Header) (prev head : ℕ) (l : List ℕ)
    → All (Same m m') l
    → Linked m prev head l
    → Linked m' prev head l
Linked-Same m m' prev head [] same k = k
Linked-Same m m' prev head (x ∷ l) ((o, p, n), same) (here, ne, off, pr, rest) =
    (here, ne, o ∙ off, p ∙ pr, rw n (Linked-Same m m' x (m x).next l same rest))

pub Linked-nonzero :
    (m : ℕ → Header) (prev head : ℕ) (l : List ℕ) → Linked m prev head l → All (λ y. y ≢ 0) l
Linked-nonzero m prev head [] k = tt
Linked-nonzero m prev head (x ∷ l) (here, ne, off, pr, rest) =
    (ne, Linked-nonzero m x (m x).next l rest)
