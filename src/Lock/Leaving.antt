-- ===== src/Lock/Leaving.antt =====
-- src/utils/lock.h: from any state, the threads of the barrier can all leave it.
use optics.Base.{
  ℕ, zero, suc, ◌+◌, ◌≤◌, ◌<◌, ◌≡◌, ◌≢◌, refl, sym, ap, ◌∙◌, ◌==◌, inl, inr, arith, Bool-cases,
  true, not-==→ne, ◌⊎◌,
}
use optics.Lock.Barrier.{
  Stand, before, waiting, past, Barrier, move, Step, add_last, add_early, load_target, has_added,
  Reachable, Leads, stay, then_step,
}
use optics.Lock.Meeting.{Met, step-Met, all-added, added-all, Reachable-Met}

Stand-cases : (s : Stand) → (s ≡ before) ⊎ ((s ≡ waiting) ⊎ (s ≡ past))
Stand-cases before = inl refl
Stand-cases waiting = inr (inl refl)
Stand-cases past = inr (inr refl)

moved_self : (b : Barrier) (v t : ℕ) (s : Stand) → (move b v t s).stand t ≡ s
moved_self b v t s = let same : (t == t) ≡ true = ground arith in rw same

moved_keeps :
    (P : Stand → Type 0) (b : Barrier) (v t : ℕ) (s : Stand)
    → P s
    → (u : ℕ) → P (b.stand u)
    → P ((move b v t s).stand u)
moved_keeps P b v t s p u q = elim (Bool-cases (u == t)) [ inl e ↦ rw e p | inr e ↦ rw e q ]

Leads-trans : {a b c : Barrier} → Leads a b → Leads b c → Leads a c
Leads-trans ab stay = ab
Leads-trans ab (then_step bc s) = then_step (Leads-trans ab bc) s

-- The first `k` threads get to where `P` holds, one after the other, if each can do so by itself, none
-- that is there leaves, and `Q` of the value goes on to hold.
module _ (P : Stand → Type 0) (Q : ℕ → Type 0) (n : ℕ) where
  record After (b : Barrier) (reached : ℕ → Type 0) : Type 0 where
    end : Barrier
    leads : Leads b end
    met : Met n end
    kept : Q end.value
    stays : (u : ℕ) → P (b.stand u) → P (end.stand u)
    reaches : (u : ℕ) → reached u → P (end.stand u)

  walk :
      ((b : Barrier) → Met n b → Q b.value → (t : ℕ) → t < n → After b (λ u. u ≡ t))
      → (k : ℕ) (b : Barrier) → k ≤ n
      → Met n b
      → Q b.value
      → After b (λ u. u < k)
  walk one zero b le m q = record {
    end = b;
    leads = stay;
    met = m;
    kept = q;
    stays = λ u p. p;
    reaches = λ u lt. absurd (omega arith);
  }
  walk one (suc k) b le m q =
      let first = walk one k b (omega arith) m q in
      let last = one first.end first.met first.kept k (omega arith) in
      record {
        end = last.end;
        leads = Leads-trans first.leads last.leads;
        met = last.met;
        kept = last.kept;
        stays = λ u p. last.stays u (first.stays u p);
        reaches = λ u lt. elim (Bool-cases (u == k)) [
          | inl e ↦ last.reaches u (ground arith)
          | inr e ↦ last.stays u (first.reaches u (ground arith))
        ];
      }

  -- the state itself, and one step
  none : (b : Barrier) (t : ℕ) → Met n b → Q b.value → P (b.stand t) → After b (λ u. u ≡ t)
  none b t m q p = record {
    end = b;
    leads = stay;
    met = m;
    kept = q;
    stays = λ u h. h;
    reaches = λ u e. rw e p;
  }

  once :
      (b : Barrier) (v t : ℕ) (s : Stand)
      → Met n b
      → Step b (move b v t s)
      → Q v
      → P s
      → After b (λ u. u ≡ t)
  once b v t s m st q p = record {
    end = move b v t s;
    leads = then_step stay st;
    met = step-Met n m st;
    kept = q;
    stays = moved_keeps P b v t s p;
    reaches = λ u e. rw (e, moved_self b v t s) p;
  }

abbrev There : Stand → Type 0
There s = s ≢ before

abbrev Past : Stand → Type 0
Past s = s ≡ past

adds :
    (n : ℕ) (b : Barrier)
    → Met n b
    → Unit {0}
    → (t : ℕ) → t < n
    → After There (λ v. Unit {0}) n b (λ u. u ≡ t)
adds n b m q t lt =
    let below : t < b.target = omega (arith, m.same_target) in
    elim (Stand-cases (b.stand t)) [
      | inl at ↦ elim (Bool-cases (b.value + 1 == b.target)) [
        | inl last ↦
            once There (λ v. Unit {0}) n b (b.value + 1) t past m
              (add_last t below at (ground arith)) tt (λ e. cc)
        | inr early ↦
            once There (λ v. Unit {0}) n b (b.value + 1) t waiting m
              (add_early t below at (not-==→ne _ _ early)) tt (λ e. cc)
      ]
      | inr (inl at) ↦ none There (λ v. Unit {0}) n b t m tt (λ e. cc)
      | inr (inr at) ↦ none There (λ v. Unit {0}) n b t m tt (λ e. cc)
    ]

passes :
    (n : ℕ) (b : Barrier)
    → Met n b
    → b.value ≡ n
    → (t : ℕ) → t < n
    → After Past (λ v. v ≡ n) n b (λ u. u ≡ t)
passes n b m q t lt =
    let there = added-all n b.stand t (sym m.counted ∙ q) lt in
    let below : t < b.target = omega (arith, m.same_target) in
    elim (Stand-cases (b.stand t)) [
      | inl at ↦ absurd (omega (arith, ap has_added at))
      | inr (inl at) ↦
          once Past (λ v. v ≡ n) n b b.value t past m
            (load_target t below at (q ∙ sym m.same_target)) q refl
      | inr (inr at) ↦ none Past (λ v. v ≡ n) n b t m q at
    ]

-- From every state that the threads of the barrier reach, some steps lead to a state in which all
-- of them are past it.
pub Reachable-leaves :
    {n : ℕ} {b : Barrier}
    → Reachable n b
    → (b' : Barrier) × Leads b b' × ((t : ℕ) → t < n → b'.stand t ≡ past)
Reachable-leaves {n} {b} r =
    let met = walk There (λ v. Unit {0}) n (adds n) n b (omega arith) (Reachable-Met n r) tt in
    let full : met.end.value ≡ n = met.met.counted ∙ all-added n met.end.stand met.reaches in
    let out = walk Past (λ v. v ≡ n) n (passes n) n met.end (omega arith) met.met full in
    (out.end, Leads-trans met.leads out.leads, out.reaches)
