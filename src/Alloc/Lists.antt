-- ===== src/Alloc/Lists.antt =====
-- src/alloc.c: the free lists of a class, and the updates of words around them.
use optics.Base.{
  ℕ, ◌+◌, ◌≤◌, ◌<◌, ◌≡◌, ◌≢◌, ◌∙◌, ◌⊎◌, inl, inr, List, [], ◌∷◌, ◌++◌, arith, All, All-left,
  All-right, All-append,
}
use optics.Region.{Region}
use optics.Region.Grow.{ptr-of_in}
use optics.Region.Grow
use optics.Alloc.{Heap, update, fill}

-- The list that starts at `head` and is linked through the first words of its blocks.
abbrev pub Chain : (ℕ → ℕ) → ℕ → List ℕ → Type 0
Chain mem head [] = head ≡ 0
Chain mem head (o ∷ l) = (head ≡ o) × (o ≢ 0) × Chain mem (mem o) l

-- two blocks of the same length that do not overlap
abbrev pub Apart : ℕ → ℕ → ℕ → Type 0
Apart len x y = (x + len ≤ y) ⊎ (y + len ≤ x)

abbrev pub Separate : ℕ → List ℕ → Type 0
Separate len [] = Unit
Separate len (o ∷ l) = All (Apart len o) l × Separate len l

abbrev pub Inside : Region → ℕ → ℕ → Type 0
Inside r len o = (r.min_pos ≤ o) × (o + len ≤ r.pos)

-- A class of blocks of `len` bytes has the blocks `a` to allocate and the freed blocks `f`.
pub record Holds (h : Heap) (len class : ℕ) (a f : List ℕ) : Type 0 where
  pub region : Grow.IsValid h.region
  pub to_alloc : Chain h.mem (h.alloc_head class) a
  pub freed : Chain h.mem (h.free_head class) f
  pub inside : All (Inside h.region len) (a ++ f)
  pub separate : Separate len (a ++ f)

-- A chain only reads the first words of its blocks.
pub Chain-frame :
    (mem mem' : ℕ → ℕ) (head : ℕ) (l : List ℕ)
    → All (λ x. mem' x ≡ mem x) l
    → Chain mem head l
    → Chain mem' head l
Chain-frame mem mem' head [] same c = c
Chain-frame mem mem' head (o ∷ l) same c =
    (c.0, c.1, rw same.0 (Chain-frame mem mem' (mem o) l same.1 c.2))

-- the address of a byte that is not in a block
abbrev pub Outside : ℕ → ℕ → ℕ → Type 0
Outside len off x = (x < off) ⊎ (off + len ≤ x)

pub Apart-Outside : (len off x : ℕ) → 0 < len → Apart len off x → Outside len off x
Apart-Outside len off x pos apart = elim apart [ inl h ↦ inr h | inr h ↦ inl (omega arith) ]

pub fill-Outside :
    (mem : ℕ → ℕ) (off len v x : ℕ) → Outside len off x → fill mem off len v x ≡ mem x
fill-Outside mem off len v x out = elim out [ inl h ↦ ground arith | inr h ↦ ground arith ]

pub update-Outside :
    (mem : ℕ → ℕ) (off len v x : ℕ) → 0 < len → Outside len off x → update mem off v x ≡ mem x
update-Outside mem off len v x pos out = elim out [ inl h ↦ ground arith | inr h ↦ ground arith ]

Separate-tail : (len : ℕ) (a f : List ℕ) → Separate len (a ++ f) → Separate len f
Separate-tail len [] f s = s
Separate-tail len (o ∷ a) f s = Separate-tail len a f s.1

-- a block in front of the second list
pub Separate-insert :
    (len o : ℕ) (a f : List ℕ)
    → All (Apart len o) (a ++ f)
    → Separate len (a ++ f)
    → Separate len (a ++ (o ∷ f))
Separate-insert len o [] f away s = (away, s)
Separate-insert len o (x ∷ a) f away s = (
  All-append (Apart len x) a (o ∷ f) (All-left (Apart len x) a f s.0)
      (elim away.0 [ inl h ↦ inr h | inr h ↦ inl h ], All-right (Apart len x) a f s.0),
  Separate-insert len o a f away.1 s.1,
)

pub not_self :
    (len o head : ℕ) (mem : ℕ → ℕ) (l : List ℕ)
    → 0 < len
    → o ≢ 0
    → All (Apart len o) l
    → Chain mem head l
    → o ≢ head
not_self len o head mem [] pos ne away c = λ e. ne (e ∙ c)
not_self len o head mem (x ∷ l) pos ne away c =
    λ e. elim away.0 [ inl h ↦ omega (arith, e, c.0) | inr h ↦ omega (arith, e, c.0) ]
