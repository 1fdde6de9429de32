-- ===== src/Optics/Deferred.antt =====
-- src/optics.c: `optics_defer_free` and `optics_epoch_inc` on the lists of deferred blocks.
use optics.Base.{
  ℕ, zero, suc, ◌+◌, ◌-◌, ◌%◌, ◌^◌, ◌<◌, ◌≡◌, ◌∙◌, ◌≢◌, refl, subst, ok_inj, List, [], ◌∷◌, true,
  arith, Run, ok, ◌>>=◌, >>=-eq-ok, >>=-congr, All, All-map, length, ne→not-==, ==_refl,
}
use optics.Optics.Space.{Allocator, Laws}
use optics.Optics.{
  Optics, Defer, defer_len, at, defer_free, free_nodes, free_defered, epoch_of, epoch_inc,
}

-- a block that waits: the offset of its node, its own, and its length
pub record Waiting : Type 0 where
  pub node : ℕ
  pub off : ℕ
  pub len : ℕ

-- The list of nodes that starts at `head` holds the blocks of `l`.
abbrev pub Pending : (ℕ → Defer) → ℕ → List Waiting → Type 0
Pending nodes head [] = head ≡ 0
Pending nodes head (w ∷ l) =
    (head ≡ w.node)
    × (w.node ≢ 0)
    × ((nodes w.node).off ≡ w.off)
    × ((nodes w.node).len ≡ w.len)
    × Pending nodes (nodes w.node).next l

-- A node that is not in the list can change.
Pending-at :
    (nodes : ℕ → Defer) (node : ℕ) (v : Defer) (head : ℕ) (l : List Waiting)
    → All (λ w. w.node ≢ node) l
    → Pending nodes head l
    → Pending (at nodes node v) head l
Pending-at nodes node v head [] new p = p
Pending-at nodes node v head (w ∷ l) new (here, ne, o, n, rest) =
    rw (ne→not-== w.node node new.0)
      (here, ne, o, n, Pending-at nodes node v (nodes w.node).next l new.1 rest)

module _ {S : Type 0} (A : Allocator S) where
  open A use {alloc, free, reaches}

  -- The releases of the blocks of a list, each followed by that of its node.
  abbrev pub release : List Waiting → S → Run S
  release [] s = ok s
  release (w ∷ l) s = do s1 ← free s w.off w.len; s2 ← free s1 w.node defer_len; release l s2

  abbrev pub Reached : S → List Waiting → Type 0
  Reached s l = All (λ w. reaches s w.node defer_len ≡ true) l

  Reached-free :
      Laws A
      → (l : List Waiting) {s s' : S} (off len : ℕ) → free s off len ≡ ok s'
      → Reached s l
      → Reached s' l
  Reached-free laws l off len run =
      All-map _ _ l (λ w h. laws.free-reaches off len w.node defer_len run ∙ h)

  Reached-release :
      Laws A
      → (l m : List Waiting) (s : S) {s' : S} → release l s ≡ ok s'
      → Reached s m
      → Reached s' m
  Reached-release laws [] m s run h = subst (λ x. Reached x m) (ok_inj run) h
  Reached-release laws (w ∷ l) m s run h =
      let (s1, r1, k) = >>=-eq-ok (free s w.off w.len) _ run in
      let (s2, r2, rest) = >>=-eq-ok (free s1 w.node defer_len) _ k in
      Reached-release laws l m s2 rest
        (Reached-free laws m w.node defer_len r2 (Reached-free laws m w.off w.len r1 h))

  -- With fuel for each node, the loop releases the blocks of the list.
  pub free_nodes-release :
      Laws A
      → (fuel : ℕ) (nodes : ℕ → Defer) (l : List Waiting) (s : S) (head : ℕ) → Reached s l
      → Pending nodes head l
      → length l < fuel
      → free_nodes A fuel nodes s head ≡ release l s
  unfolding free_nodes
  free_nodes-release laws zero nodes l s head all p enough = absurd (omega (arith, enough))
  free_nodes-release laws (suc fuel) nodes [] s head all p enough = rw p refl
  free_nodes-release laws (suc fuel) nodes (w ∷ l) s head (at_w, all) (here, ne, o, n, rest)
        enough =
      rw (here, ne→not-== w.node 0 ne, at_w, o, n)
        (>>=-congr (free s w.off w.len) _ _ (λ s1 r1.
          >>=-congr (free s1 w.node defer_len) _ _ (λ s2 r2.
            free_nodes-release laws fuel nodes l s2 (nodes w.node).next
              (Reached-free laws l w.node defer_len r2 (Reached-free laws l w.off w.len r1 all))
              rest (omega (arith, enough)))))

  -- The blocks that were deferred in this epoch, and those that were in the one before it.
  pub record Deferring (o : Optics S) (now before : List Waiting) : Type 0 where
    pub of_now : Pending o.nodes (o.defers (o.epoch % 2)) now
    pub of_before : Pending o.nodes (o.defers (1 - o.epoch % 2)) before
    pub reached_now : Reached o.space now
    pub reached_before : Reached o.space before

  -- Where every node can be reached, the fuel exceeds the number of blocks that wait since the last
  -- epoch, and their releases succeed, a turn of the epoch makes exactly those releases, each with
  -- that of its node; the blocks of the epoch that ends wait for the next turn.
  pub epoch_inc-Deferring :
      Laws A
      → (fuel : ℕ) {o : Optics S} (now before : List Waiting) {s : S} → Deferring o now before
      → length before < fuel
      → release before o.space ≡ ok s
      → (o' : Optics S) × (epoch_inc A fuel o ≡ ok (o', o.epoch % 2))
        × (o'.space ≡ s)
        × (o'.epoch ≡ (o.epoch + 1) % 2 ^ 64)
        × Deferring o' [] now
  unfolding epoch_inc free_defered epoch_of
  epoch_inc-Deferring laws fuel {o} now before {s} d enough run =
      let loop =
        free_nodes-release laws fuel o.nodes before o.space (o.defers (1 - o.epoch % 2))
          d.reached_before d.of_before enough in
      let flip : (o.epoch + 1) % 2 ^ 64 % 2 ≡ 1 - o.epoch % 2 = omega arith in
      let back : 1 - (1 - o.epoch % 2) ≡ o.epoch % 2 = omega arith in
      (
        record o {
          space = s;
          defers = at o.defers (1 - o.epoch % 2) 0;
          epoch = (o.epoch + 1) % 2 ^ 64;
        },
        rw (loop, run) refl,
        refl,
        refl,
        record {
          of_now = rw (flip, ==_refl (1 - o.epoch % 2)) refl;
          of_before =
              rw (flip, back, ne→not-== (o.epoch % 2) (1 - o.epoch % 2) (omega arith)) d.of_now;
          reached_now = tt;
          reached_before = Reached-release laws before now o.space run d.reached_now;
        },
      )

  -- If the allocator gives a node that is no other's, is not 0 and can be reached, a deferral puts
  -- the block in front of those of this epoch, and changes neither the epoch nor the others that
  -- wait.
  pub defer_free-Deferring :
      {o : Optics S} (now before : List Waiting) (off len node : ℕ) {s : S}
      → Deferring o now before
      → alloc o.space defer_len ≡ ok (s, node)
      → node ≢ 0
      → Reached s (record { node = node; off = off; len = len } ∷ now)
      → Reached s before
      → All (λ w. w.node ≢ node) now
      → All (λ w. w.node ≢ node) before
      → (o' : Optics S) × (defer_free A o off len ≡ ok (o', true))
        × (o'.space ≡ s)
        × (o'.epoch ≡ o.epoch)
        × Deferring o' (record { node = node; off = off; len = len } ∷ now) before
  unfolding defer_free epoch_of
  defer_free-Deferring {o} now before off len node {s} d run ne reached others new_now new_before =
      let e = o.epoch % 2 in
      (
        record o {
          space = s;
          nodes = at o.nodes node (record { off = off; len = len; next = o.defers e });
          defers = at o.defers e node;
        },
        rw (run, ne→not-== node 0 ne, reached.0) refl,
        refl,
        refl,
        record {
          of_now =
              rw (==_refl e, ==_refl node)
                (refl, ne, refl, refl, Pending-at o.nodes node _ (o.defers e) now new_now d.of_now);
          of_before =
              rw (ne→not-== (1 - e) e (omega arith))
                (Pending-at o.nodes node _ (o.defers (1 - e)) before new_before d.of_before);
          reached_now = reached;
          reached_before = others;
        },
      )
