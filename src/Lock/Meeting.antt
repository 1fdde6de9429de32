-- ===== src/Lock/Meeting.antt =====
-- src/utils/lock.h: no thread leaves the barrier before all of them are there.
use optics.Base.{
  ℕ, zero, suc, ◌+◌, ◌≤◌, ◌<◌, ◌≡◌, ◌≢◌, refl, sym, ap, ◌∙◌, ◌==◌, if◌then◌else◌, inl, inr, arith,
  Bool-cases, false,
}
use optics.Lock.Barrier.{
  Stand, before, waiting, past, Barrier, Step, add_last, add_early, load_other, load_target,
  Reachable, start, step, has_added, added,
}

abbrev placed : (ℕ → Stand) → ℕ → Stand → ℕ → Stand
placed f t s u = if u == t then s else f u

added-out : (n : ℕ) (f : ℕ → Stand) (t : ℕ) (s : Stand) → n ≤ t → added n (placed f t s) ≡ added n f
unfolding added
added-out zero f t s le = refl
added-out (suc n) f t s le =
    let other : (n == t) ≡ false = ground arith in rw (other, added-out n f t s (omega arith))

added-placed :
    (n : ℕ) (f : ℕ → Stand) (t : ℕ) (s : Stand)
    → t < n
    → added n (placed f t s) + has_added (f t) ≡ added n f + has_added s
unfolding added
added-placed zero f t s lt = absurd (omega arith)
added-placed (suc n) f t s lt = elim (Bool-cases (n == t)) [
  | inl e ↦
      let same : n ≡ t = ground arith in
      let rest = added-out n f t s (omega arith) in rw (e, rest, same) (omega arith)
  | inr e ↦ let rest = added-placed n f t s (ground arith) in rw e (omega arith)
]

has_added-le : (s : Stand) → has_added s ≤ 1
has_added-le before = omega arith
has_added-le waiting = omega arith
has_added-le past = omega arith

has_added-there : (s : Stand) → s ≢ before → has_added s ≡ 1
has_added-there before ne = absurd (ne refl)
has_added-there waiting ne = refl
has_added-there past ne = refl

added-le : (n : ℕ) (f : ℕ → Stand) → added n f ≤ n
unfolding added
added-le zero f = omega arith
added-le (suc n) f = omega (arith, added-le n f, has_added-le (f n))

-- where all have added, none stands before
pub added-all : (n : ℕ) (f : ℕ → Stand) (u : ℕ) → added n f ≡ n → u < n → has_added (f u) ≡ 1
unfolding added
added-all zero f u all lt = absurd (omega arith)
added-all (suc n) f u all lt =
    let few = added-le n f in
    let one = has_added-le (f n) in
    elim (Bool-cases (u == n)) [
      | inl e ↦ let same : u ≡ n = ground arith in rw same (omega arith)
      | inr e ↦ added-all n f u (omega arith) (ground arith)
    ]

pub all-added : (n : ℕ) (f : ℕ → Stand) → ((u : ℕ) → u < n → f u ≢ before) → added n f ≡ n
unfolding added
all-added zero f there = refl
all-added (suc n) f there =
    let rest = all-added n f (λ u lt. there u (omega arith)) in
    let last = has_added-there (f n) (there n (omega arith)) in omega arith

pub record Met (n : ℕ) (b : Barrier) : Type 0 where
  pub same_target : b.target ≡ n
  pub counted : b.value ≡ added n b.stand
  pub full : (t : ℕ) → b.stand t ≡ past → b.value ≡ n

-- the threads past the barrier, after one of them has moved
full-placed :
    (n v : ℕ) (f : ℕ → Stand) (t : ℕ) (s : Stand)
    → ((u : ℕ) → f u ≡ past → v ≡ n)
    → (s ≡ past → v ≡ n)
    → (u : ℕ) → placed f t s u ≡ past
    → v ≡ n
full-placed n v f t s old new u h = elim (Bool-cases (u == t)) [
  | inl e ↦ new (rw e at h)
  | inr e ↦ old u (rw e at h)
]

pub step-Met : (n : ℕ) {b b' : Barrier} → Met n b → Step b b' → Met n b'
step-Met n {b} m (add_last t lt at last) =
    let more = added-placed n b.stand t past (omega (arith, m.same_target)) in
    record {
      same_target = m.same_target;
      counted = omega (arith, m.counted, ap has_added at);
      full = λ u h. last ∙ m.same_target;
    }
step-Met n {b} m (add_early t lt at more_come) =
    let more = added-placed n b.stand t waiting (omega (arith, m.same_target)) in
    let none_left : (u : ℕ) → b.stand u ≡ past → b.value + 1 ≡ n = λ u h.
      let there =
        added-all n b.stand t (sym m.counted ∙ m.full u h) (omega (arith, m.same_target)) in
      absurd (omega (arith, ap has_added at)) in
    record {
      same_target = m.same_target;
      counted = omega (arith, m.counted, ap has_added at);
      full = full-placed n (b.value + 1) b.stand t waiting none_left (λ h. cc);
    }
step-Met n m (load_other t lt at early) = m
step-Met n {b} m (load_target t lt at there) =
    let more = added-placed n b.stand t past (omega (arith, m.same_target)) in
    record {
      same_target = m.same_target;
      counted = omega (arith, m.counted, ap has_added at);
      full = λ u h. there ∙ m.same_target;
    }

none-added : (n : ℕ) → added n (λ t. before) ≡ 0
unfolding added
none-added zero = refl
none-added (suc n) = omega (arith, none-added n)

pub Reachable-Met : (n : ℕ) {b : Barrier} → Reachable n b → Met n b
unfolding added
Reachable-Met n start = record {
  same_target = refl;
  counted = sym (none-added n);
  full = λ t h. cc;
}
Reachable-Met n (step r s) = step-Met n (Reachable-Met n r) s

-- However the atomic steps of its threads interleave, when one of them is past the barrier, every
-- thread below the target has added itself.
pub Reachable-meets :
    {n : ℕ} {b : Barrier} (t u : ℕ) → Reachable n b → b.stand t ≡ past → u < n → b.stand u ≢ before
Reachable-meets {n} {b} t u r out lt e =
    let m = Reachable-Met n r in
    let there = added-all n b.stand u (sym m.counted ∙ m.full t out) lt in
    omega (arith, ap has_added e)
