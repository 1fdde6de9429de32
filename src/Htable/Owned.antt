-- ===== src/Htable/Owned.antt =====
-- src/utils/htable.h: a table whose values are pointers to blocks of its user.
use optics.Base.{
  ℕ, ◌+◌, ◌<◌, ◌≡◌, sym, ◌∙◌, ap₂, inl, inr, true, false, Option, some, some_inj, Text, str_eq_eq,
  arith, if◌then◌else◌, Bool-cases,
}
use optics.Htable.{Htable}
use optics.Htable.Table.{same}
use optics.Htable.Resize.{IsValid, view}

-- The table is valid, its pointers lead to the first `n` blocks, and no two keys share one.
pub record Owned (ht : Htable) (n : ℕ) : Type 0 where
  pub table : IsValid ht
  pub owned : (q : Text) (p : ℕ) → view ht q ≡ some p → p < n
  pub apart : (q r : Text) (p : ℕ) → view ht q ≡ some p → view ht r ≡ some p → same q r ≡ true

pub same_trans : (k q r : Text) → same k q ≡ true → same k r ≡ true → same q r ≡ true
same_trans k q r e f = rw (← str_eq_eq _ _ e) f

pub choose :
    (key q : Text) {a a' b b' : Option ℕ}
    → a ≡ a'
    → b ≡ b'
    → (if same key q then a else b) ≡ (if same key q then a' else b')
choose key q e f = ap₂ (λ x y. if same key q then x else y) e f

-- another table with the same view
pub Owned-same :
    {ht ht' : Htable} {n : ℕ}
    → Owned ht n
    → IsValid ht'
    → ((q : Text) → view ht' q ≡ view ht q)
    → Owned ht' n
Owned-same v table reads = record {
  table = table;
  owned = λ q p h. v.owned q p (sym (reads q) ∙ h);
  apart = λ q r p h k. v.apart q r p (sym (reads q) ∙ h) (sym (reads r) ∙ k);
}

-- A table with a pointer to a new block under a key.
module _ {ht : Htable} {n : ℕ} (v : Owned ht n) (key : Text) (ht' : Htable) (table : IsValid ht')
    (reads : (q : Text) → view ht' q ≡ (if same key q then some n else view ht q)) where
  pub reads_new : (q : Text) → same key q ≡ true → view ht' q ≡ some n
  reads_new q e = reads q ∙ rw e

  pub reads_old : (q : Text) → same key q ≡ false → view ht' q ≡ view ht q
  reads_old q e = reads q ∙ rw e

  owned_after : (q : Text) (p : ℕ) → view ht' q ≡ some p → p < n + 1
  owned_after q p h = elim (Bool-cases (same key q)) [
    | inl e ↦ let at : n ≡ p = some_inj (sym (reads_new q e) ∙ h) in omega arith
    | inr e ↦ omega (arith, v.owned q p (sym (reads_old q e) ∙ h))
  ]

  apart_after : (q r : Text) (p : ℕ) → view ht' q ≡ some p → view ht' r ≡ some p → same q r ≡ true
  apart_after q r p h k = elim (Bool-cases (same key q)) [
    | inl e ↦
        let at : n ≡ p = some_inj (sym (reads_new q e) ∙ h) in
        elim (Bool-cases (same key r)) [
          | inl f ↦ same_trans key q r e f
          | inr f ↦ absurd (omega (arith, v.owned r p (sym (reads_old r f) ∙ k)))
        ]
    | inr e ↦ elim (Bool-cases (same key r)) [
      | inl f ↦
          let at : n ≡ p = some_inj (sym (reads_new r f) ∙ k) in
          absurd (omega (arith, v.owned q p (sym (reads_old q e) ∙ h)))
      | inr f ↦ v.apart q r p (sym (reads_old q e) ∙ h) (sym (reads_old r f) ∙ k)
    ]
  ]

  pub Owned-new : Owned ht' (n + 1)
  Owned-new = record { table = table; owned = owned_after; apart = apart_after }
