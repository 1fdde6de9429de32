-- ===== src/Lock/Exclusion.antt =====
-- src/utils/lock.h: who owns the spin lock.
use optics.Base.{
  ℕ, ◌≡◌, ◌≢◌, ◌⊎◌, inl, inr, refl, sym, ap, ◌∙◌, arith, ◌==◌, ==_refl, ==_eq, not-==→ne, ne→not-==,
  Bool-cases,
}
use optics.Lock.{
  Lock, Place, outside, loading, exchanging, owning, go, Step, call, load_taken, load_free,
  exchange, exchange_fails, try_lock, unlock, Reachable, start, step,
}

-- The lock is taken exactly while a thread owns it, and then by that thread alone.
record Free (l : Lock) : Type 0 where
  zero_value : l.value ≡ 0
  nobody : (t : ℕ) → l.place t ≢ owning

record Taken (l : Lock) : Type 0 where
  owner : ℕ
  taken : l.value ≢ 0
  owns : l.place owner ≡ owning
  only : (t : ℕ) → l.place t ≡ owning → t ≡ owner

abbrev Owned : Lock → Type 0
Owned l = Free l ⊎ Taken l

-- a step that changes neither the lock nor who owns it
stays :
    (l : Lock) (t : ℕ) (p : Place)
    → l.place t ≢ owning
    → p ≢ owning
    → Owned l
    → Owned (go l l.value t p)
stays l t p was is (inl f) = inl (record {
  zero_value = f.zero_value;
  nobody =
      λ u. elim (Bool-cases (u == t)) [ inl same ↦ rw same is | inr other ↦ rw other (f.nobody u) ];
})
stays l t p was is (inr k) =
    let far : k.owner ≢ t = λ e. was (ap l.place (sym e) ∙ k.owns) in
    inr (record {
      owner = k.owner;
      taken = k.taken;
      owns = rw (ne→not-== k.owner t far) k.owns;
      only = λ u. elim (Bool-cases (u == t)) [
        | inl same ↦ rw same (λ h. absurd (is h))
        | inr other ↦ rw other (k.only u)
      ];
    })

takes : (l : Lock) (t : ℕ) → l.value ≡ 0 → Owned l → Owned (go l 1 t owning)
takes l t free (inr k) = absurd (k.taken free)
takes l t free (inl f) = inr (record {
  owner = t;
  taken = omega arith;
  owns = rw (==_refl t) refl;
  only = λ u. elim (Bool-cases (u == t)) [
    | inl same ↦ λ h. ==_eq u t same
    | inr other ↦ rw other (λ h. absurd (f.nobody u h))
  ];
})

leaves : (l : Lock) (t : ℕ) → l.place t ≡ owning → Owned l → Owned (go l 0 t outside)
leaves l t mine (inl f) = absurd (f.nobody t mine)
leaves l t mine (inr k) = inl (record {
  zero_value = refl;
  nobody = λ u. elim (Bool-cases (u == t)) [
    | inl same ↦ rw same (λ h. cc)
    | inr other ↦ rw other (λ h. not-==→ne u t other (k.only u h ∙ sym (k.only t mine)))
  ];
})

Step-Owned : {l l' : Lock} → Step l l' → Owned l → Owned l'
Step-Owned {l} (call t at) o = stays l t loading (λ h. cc) (λ h. cc) o
Step-Owned {l} (load_taken t at taken) o = stays l t loading (λ h. cc) (λ h. cc) o
Step-Owned {l} (load_free t at free) o = stays l t exchanging (λ h. cc) (λ h. cc) o
Step-Owned {l} (exchange t at free) o = takes l t free o
Step-Owned {l} (exchange_fails t at) o = stays l t loading (λ h. cc) (λ h. cc) o
Step-Owned {l} (try_lock t at free) o = takes l t free o
Step-Owned {l} (unlock t at) o = leaves l t at o

Reachable-Owned : {l : Lock} → Reachable l → Owned l
Reachable-Owned start = inl (record { zero_value = refl; nobody = λ t h. cc })
Reachable-Owned (step r s) = Step-Owned s (Reachable-Owned r)

-- However the atomic steps of any number of threads interleave, two threads that own the spin lock
-- are the same, and the lock is taken, where only an owner unlocks it.
pub Reachable-exclusive :
    {l : Lock} (t u : ℕ)
    → Reachable l
    → l.place t ≡ owning
    → l.place u ≡ owning
    → (t ≡ u) × (l.value ≢ 0)
Reachable-exclusive t u r a b = elim (Reachable-Owned r) [
  | inl f ↦ absurd (f.nobody t a)
  | inr k ↦ (k.only t a ∙ sym (k.only u b), k.taken)
]
