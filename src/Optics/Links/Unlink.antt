-- ===== src/Optics/Links/Unlink.antt =====
-- What becomes of the list when the neighbours of a lens skip it.
use optics.Base.{
  ℕ, ◌≡◌, ◌≢◌, refl, sym, ◌∙◌, subst, List, [], ◌∷◌, ◌++◌, All, All-map, All-both, All-left, arith,
  ◌==◌, if◌then◌else◌,
}
use optics.Optics.{Header, at}
use optics.Optics.Links.{Linked, Linked-Same, Distinct, Same}

-- What the lens behind and the lens in front of a removed one become: `n` is behind, `p` in front.
pub record Skips (m m2 : ℕ → Header) (n p : ℕ) : Type 0 where
  pub off : (z : ℕ) → (m2 z).off ≡ (m z).off
  pub prev : (z : ℕ) → z ≢ n → (m2 z).prev ≡ (m z).prev
  pub next : (z : ℕ) → z ≢ p → (m2 z).next ≡ (m z).next
  behind : n ≢ 0 → (m2 n).prev ≡ p
  front : p ≢ 0 → (m2 p).next ≡ n

abbrev pub first : List ℕ → ℕ → ℕ → ℕ
first [] h n = n
first (y ∷ l) h n = h

module _ (m : ℕ → Header) (x : ℕ) (b : List ℕ) where
  abbrev pub n : ℕ
  n = (m x).next

  abbrev pub p : ℕ
  p = (m x).prev

  -- What holds of every lens of the list, and of the one before it, holds of the one before `x`.
  pub prev-holds :
      (Q : ℕ → Type 0) (a : List ℕ) (q h : ℕ) → Linked m q h (a ++ x ∷ b) → All Q a → Q q → Q p
  prev-holds Q [] q h (here, ne, off, pr, rest) all one = rw pr one
  prev-holds Q (y ∷ a) q h (here, ne, off, pr, rest) (at_y, all) one =
      prev-holds Q a y (m y).next rest all at_y

  pub prev-next :
      (a : List ℕ) (q h : ℕ)
      → Linked m q h (a ++ x ∷ b)
      → (q ≢ 0 → (m q).next ≡ h)
      → p ≢ 0
      → (m p).next ≡ x
  prev-next [] q h (here, ne, off, pr, rest) f nz = rw pr (f (λ e. nz (pr ∙ e)) ∙ here)
  prev-next (y ∷ a) q h (here, ne, off, pr, rest) f nz =
      prev-next a y (m y).next rest (λ e. refl) nz

  pub head-ne : (l : List ℕ) (q h y : ℕ) → Linked m q h l → All (λ z. z ≢ y) l → y ≢ 0 → y ≢ h
  head-ne [] q h y k apart nz e = nz (e ∙ k)
  head-ne (z ∷ l) q h y k apart nz e = apart.0 (sym k.0 ∙ sym e)

  next-ne :
      (a : List ℕ) (q h y : ℕ)
      → Linked m q h (a ++ x ∷ b)
      → All (λ z. z ≢ y) (a ++ x ∷ b)
      → y ≢ 0
      → y ≢ n
  next-ne [] q h y (here, ne, off, pr, rest) (nx, apart) nz = head-ne b x n y rest apart nz
  next-ne (z ∷ a) q h y (here, ne, off, pr, rest) (nx, apart) nz =
      next-ne a z (m z).next y rest apart nz

  module _ {m2 : ℕ → Header} (s : Skips m m2 n p) where
    away : (l : List ℕ) → All (λ z. (z ≢ n) × (z ≢ p)) l → All (Same m m2) l
    away l h = All-map _ (Same m m2) l (λ z k. (s.off z, s.prev z k.0, s.next z k.1)) h

    unlinked_behind :
        (l : List ℕ) (h : ℕ)
        → h ≡ n
        → Linked m x h l
        → Distinct l
        → All (λ z. z ≢ p) l
        → Linked m2 p h l
    unlinked_behind [] h is k d apart = k
    unlinked_behind (y ∷ l) h is (here, ne, off, pr, rest) (new, d) (ny, apart) =
        let yn : y ≡ n = sym here ∙ is in
        (
          here,
          ne,
          s.off y ∙ off,
          subst (λ z. (m2 z).prev ≡ p) (sym yn) (s.behind (λ e. ne (yn ∙ e))),
          rw (s.next y ny) (
              Linked-Same m m2 y (m y).next l
                (away l (All-both _ _ l (subst (λ z. All (λ w. w ≢ z) l) yn new) apart)) rest),
        )

    after :
        (a : List ℕ) (y h : ℕ)
        → Linked m y h (a ++ x ∷ b)
        → h ≡ (m y).next
        → y ≢ 0
        → All (λ z. z ≢ y) (a ++ x ∷ b)
        → (m2 y).next ≡ first a h n
    after [] y h (here, ne, off, pr, rest) is nz new =
        subst (λ z. (m2 z).next ≡ n) pr (s.front (λ e. nz (sym pr ∙ e)))
    after (z ∷ a) y h (here, ne, off, pr, rest) is nz (nzy, new) =
        let away_p : p ≢ y =
          prev-holds (λ w. w ≢ y) a z (m z).next rest (All-left _ a (x ∷ b) new) nzy in
        s.next y (λ e. away_p (sym e)) ∙ sym is

    pub unlinked :
        (a : List ℕ) (q h : ℕ)
        → Linked m q h (a ++ x ∷ b)
        → Distinct (a ++ x ∷ b)
        → All (λ z. z ≢ q) (a ++ x ∷ b)
        → Linked m2 q (first a h n) (a ++ b)
    unlinked [] q h (here, ne, off, pr, rest) (new, d) (nq, apart) =
        subst (λ z. Linked m2 z n b) pr
          (unlinked_behind b n refl rest d (subst (λ z. All (λ w. w ≢ z) b) (sym pr) apart))
    unlinked (y ∷ a) q h (here, ne, off, pr, rest) (new, d) (nq, apart) =
        let ih = unlinked a y (m y).next rest d new in
        let next : (m2 y).next ≡ first a (m y).next n = after a y (m y).next rest refl ne new in
        (here, ne, s.off y ∙ off, s.prev y (next-ne a y (m y).next y rest new ne) ∙ pr, rw next ih)

abbrev pub skip_next : (ℕ → Header) → ℕ → ℕ → ℕ → Header
skip_next m n p = if n == 0 then m else at m n (record (m n) { prev = p })

abbrev pub skip_prev : (ℕ → Header) → ℕ → ℕ → ℕ → Header
skip_prev m n p = if p == 0 then m else at m p (record (m p) { next = n })

pub skip-Skips : (m : ℕ → Header) (n p : ℕ) → Skips m (skip_prev (skip_next m n p) n p) n p
skip-Skips m n p = record {
  off = λ z. ground arith;
  prev = λ z h. ground arith;
  next = λ z h. ground arith;
  behind = λ h. ground arith;
  front = λ h. ground arith;
}
