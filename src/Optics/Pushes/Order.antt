-- ===== src/Optics/Pushes/Order.antt =====
-- src/optics.c: no push of a deferred block is lost.
use optics.Base.{
  ℕ, ◌≡◌, ◌≢◌, refl, sym, ◌∙◌, List, [], ◌∷◌, All, ◌==◌, ==_refl, ==_eq, ne→not-==, not-==→ne, inl,
  inr, Bool-cases,
}
use optics.Optics.{at}
use optics.Optics.Pushes.{
  Stage, outside, linking, exchanging, Pushes, Fresh, Step, load, link, exchange, exchange_fails,
  take_all, Reachable, start, step, Chain,
}

at_self : {A : Type 0} (f : ℕ → A) (t : ℕ) (v : A) → at f t v t ≡ v
at_self f t v = rw (==_refl t)

at-ne : {A : Type 0} (f : ℕ → A) (t u : ℕ) (v : A) → u ≢ t → at f t v u ≡ f u
at-ne f t u v ne = rw (ne→not-== u t ne)

-- a write to a node that is not in the list
Chain-at :
    (next : ℕ → ℕ) (n v head : ℕ) (xs : List ℕ)
    → All (λ (x : ℕ). x ≢ n) xs
    → Chain next head xs
    → Chain (at next n v) head xs
Chain-at next n v head [] out c = c
Chain-at next n v head (x ∷ xs) out (here, there, rest) =
    (here, there, rw (at-ne next n x v out.0) (Chain-at next n v (next x) xs out.1 rest))

record Ordered (s : Pushes) (stack : List ℕ) : Type 0 where
  chain : Chain s.next s.head stack
  there : (t : ℕ) → s.stage t ≢ outside → s.node t ≢ 0
  unlisted : (t : ℕ) → s.stage t ≢ outside → All (λ (x : ℕ). x ≢ s.node t) stack
  apart : (t u : ℕ) → s.stage t ≢ outside → s.stage u ≢ outside → s.node t ≡ s.node u → t ≡ u
  linked : (t : ℕ) → s.stage t ≡ exchanging → s.next (s.node t) ≡ s.old t

-- the other threads, and this one where it stays inside
still :
    (f : ℕ → Stage) (t : ℕ) (x : Stage)
    → f t ≢ outside
    → (u : ℕ) → at f t x u ≢ outside
    → f u ≢ outside
still f t x was u = elim (Bool-cases (u == t)) [
  | inl e ↦ λ h. rw (==_eq u t e) was
  | inr e ↦ rw e (λ h. h)
]

-- the other threads where this one goes outside
others : (f : ℕ → Stage) (t u : ℕ) → at f t outside u ≢ outside → (u ≢ t) × (f u ≢ outside)
others f t u = elim (Bool-cases (u == t)) [
  | inl e ↦ rw e (λ h. absurd (h refl))
  | inr e ↦ rw e (λ h. (not-==→ne u t e, h))
]

module _ {s : Pushes} {stack : List ℕ} (m : Ordered s stack) (t : ℕ) where
  load-Ordered :
      (n : ℕ)
      → Fresh s stack n
      → Ordered
          (record s { stage = at s.stage t linking; node = at s.node t n; old = at s.old t s.head })
          stack
  load-Ordered n fresh = record {
    chain = m.chain;
    there = λ u. elim (Bool-cases (u == t)) [
      | inl e ↦ rw e (λ h. fresh.there)
      | inr e ↦ rw e (m.there u)
    ];
    unlisted = λ u. elim (Bool-cases (u == t)) [
      | inl e ↦ rw e (λ h. fresh.unlisted)
      | inr e ↦ rw e (m.unlisted u)
    ];
    apart = λ a b. elim (Bool-cases (a == t)) [
      | inl ea ↦ elim (Bool-cases (b == t)) [
        | inl eb ↦ rw (ea, eb) (λ h k e. ==_eq a t ea ∙ sym (==_eq b t eb))
        | inr eb ↦ rw (ea, eb) (λ h k e. absurd (fresh.free b k (sym e)))
      ]
      | inr ea ↦ elim (Bool-cases (b == t)) [
        | inl eb ↦ rw (ea, eb) (λ h k e. absurd (fresh.free a h e))
        | inr eb ↦ rw (ea, eb) (m.apart a b)
      ]
    ];
    linked = λ u. elim (Bool-cases (u == t)) [ inl e ↦ rw e (λ h. cc) | inr e ↦ rw e (m.linked u) ];
  }

  link-Ordered :
      s.stage t ≡ linking
      → Ordered
          (record s { next = at s.next (s.node t) (s.old t); stage = at s.stage t exchanging })
          stack
  link-Ordered here =
      let was : s.stage t ≢ outside = λ e. cc in
      let inside = still s.stage t exchanging was in
      record {
        chain = Chain-at s.next (s.node t) (s.old t) s.head stack (m.unlisted t was) m.chain;
        there = λ u h. m.there u (inside u h);
        unlisted = λ u h. m.unlisted u (inside u h);
        apart = λ a b h k. m.apart a b (inside a h) (inside b k);
        linked = λ u. elim (Bool-cases (u == t)) [
          | inl e ↦ rw (e, ==_eq u t e) (λ h. at_self s.next (s.node t) (s.old t))
          | inr e ↦ rw e (λ h.
              at-ne s.next (s.node t) (s.node u) (s.old t)
                (λ same. not-==→ne u t e (m.apart u t (λ o. cc) was same))
              ∙ m.linked u h)
        ];
      }

  exchange-Ordered :
      s.stage t ≡ exchanging
      → s.head ≡ s.old t
      → Ordered (record s { head = s.node t; stage = at s.stage t outside }) (s.node t ∷ stack)
  exchange-Ordered here same =
      let was : s.stage t ≢ outside = λ e. cc in
      let behind : s.next (s.node t) ≡ s.head = m.linked t here ∙ sym same in
      let inside = others s.stage t in
      record {
        chain = (refl, m.there t was, rw behind m.chain);
        there = λ u h. m.there u (inside u h).1;
        unlisted = λ u h.
            let (ne, k) = inside u h in ((λ e. ne (sym (m.apart t u was k e))), m.unlisted u k);
        apart = λ a b h k. m.apart a b (inside a h).1 (inside b k).1;
        linked =
            λ u. elim (Bool-cases (u == t)) [ inl e ↦ rw e (λ h. cc) | inr e ↦ rw e (m.linked u) ];
      }

  exchange_fails-Ordered :
      s.stage t ≡ exchanging
      → Ordered (record s { stage = at s.stage t linking; old = at s.old t s.head }) stack
  exchange_fails-Ordered here =
      let was : s.stage t ≢ outside = λ e. cc in
      let inside = still s.stage t linking was in
      record {
        chain = m.chain;
        there = λ u h. m.there u (inside u h);
        unlisted = λ u h. m.unlisted u (inside u h);
        apart = λ a b h k. m.apart a b (inside a h) (inside b k);
        linked =
            λ u. elim (Bool-cases (u == t)) [ inl e ↦ rw e (λ h. cc) | inr e ↦ rw e (m.linked u) ];
      }

step-Ordered :
    {s s' : Pushes} {stack stack' : List ℕ}
    → Ordered s stack
    → Step s stack s' stack'
    → Ordered s' stack'
step-Ordered m (load t n out fresh) = load-Ordered m t n fresh
step-Ordered m (link t here) = link-Ordered m t here
step-Ordered m (exchange t here same) = exchange-Ordered m t here same
step-Ordered m (exchange_fails t here) = exchange_fails-Ordered m t here
step-Ordered m take_all = record {
  chain = refl;
  there = m.there;
  unlisted = λ t h. tt;
  apart = m.apart;
  linked = m.linked;
}

reached : {s : Pushes} {stack : List ℕ} → Reachable s stack → Ordered s stack
reached start = record {
  chain = refl;
  there = λ t h. absurd (h refl);
  unlisted = λ t h. tt;
  apart = λ t u h. absurd (h refl);
  linked = λ t h. cc;
}
reached (step r s) = step-Ordered (reached r) s

-- However the atomic steps of any number of threads interleave, whose nodes are fresh, the words
-- from the head on are the list of exactly the nodes whose exchange succeeded since the list was
-- last taken, the latest first.
pub Reachable-Chain : {s : Pushes} {stack : List ℕ} → Reachable s stack → Chain s.next s.head stack
Reachable-Chain r = (reached r).chain
