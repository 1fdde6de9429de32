-- ===== src/Lens/Histo/Read.antt =====
-- src/lens_histo.c: what `lens_histo_read` does to each counter.
use optics.Base.{
  ℕ, zero, suc, ◌+◌, ◌-◌, ◌≤◌, ◌<◌, ◌≡◌, ◌≢◌, refl, sym, ap, ap₂, ◌∙◌, List, ==_eq, not-==→ne,
  arith, none, some, ◌==◌, length, get_or, set, length-set, get_or-set_self, get_or-set_ne,
  Bool-cases, inl, inr, some_inj,
}
use optics.Lens.Counter.{word}
use optics.Lens.Histo.{
  Counts, Histo, Cell, low, high, bucket, cell, epoch_of, set_epoch, Value, same_buckets,
  move_counts, drain, read,
}

-- what the loop does to the index `j` of the array that it empties and of the one that it fills
record Moved (from to : List ℕ) (out : List ℕ × List ℕ) (j : ℕ) : Type 0 where
  emptied : get_or out.0 j 0 ≡ 0
  added : get_or out.1 j 0 ≡ word (get_or to j 0 + get_or from j 0)

record Kept (from to : List ℕ) (out : List ℕ × List ℕ) (j : ℕ) : Type 0 where
  same_from : get_or out.0 j 0 ≡ get_or from j 0
  same_to : get_or out.1 j 0 ≡ get_or to j 0

move_counts-Kept :
    (n : ℕ) (from to : List ℕ) (i j : ℕ) → j < i → Kept from to (move_counts n from to i) j
unfolding move_counts
move_counts-Kept zero from to i j lt = record { same_from = refl; same_to = refl }
move_counts-Kept (suc n) from to i j lt =
    let k =
      move_counts-Kept n (set from i 0) (set to i (word (get_or to i 0 + get_or from i 0))) (i + 1)
        j (omega arith) in
    record {
      same_from = k.same_from ∙ get_or-set_ne from i j 0 0 (omega arith);
      same_to = k.same_to ∙ get_or-set_ne to i j _ 0 (omega arith);
    }

move_counts-Moved :
    (n : ℕ) (from to : List ℕ) (i j : ℕ)
    → i ≤ j
    → j < i + n
    → i + n ≤ length from
    → i + n ≤ length to
    → Moved from to (move_counts n from to i) j
unfolding move_counts
move_counts-Moved zero from to i j ge lt a b = absurd (omega arith)
move_counts-Moved (suc n) from to i j ge lt a b =
    let v = word (get_or to i 0 + get_or from i 0) in
    let from' = set from i 0 in
    let to' = set to i v in
    elim (Bool-cases (i == j)) [
      | inl here ↦
          let e : i ≡ j = ==_eq i j here in
          let k = move_counts-Kept n from' to' (i + 1) i (omega arith) in
          rw (sym e) (record {
            emptied = k.same_from ∙ get_or-set_self from i 0 0 (omega arith);
            added = k.same_to ∙ get_or-set_self to i v 0 (omega arith);
          })
      | inr later ↦
          let ne : i ≢ j = not-==→ne i j later in
          let m =
            move_counts-Moved n from' to' (i + 1) j (omega arith) (omega arith)
              (omega (arith, length-set from i 0)) (omega (arith, length-set to i v)) in
          record {
            emptied = m.emptied;
            added =
                m.added
                ∙ ap₂ (λ x y. word (x + y)) (get_or-set_ne to i j v 0 ne)
                    (get_or-set_ne from i j 0 0 ne);
          }
    ]

-- the counters that a histogram of these bounds has
abbrev pub IsCell : Histo → Cell → Type 0
IsCell h low = Unit
IsCell h high = Unit
IsCell h (bucket j) = j + 1 < h.buckets_len

epoch_of-set_epoch : (h : Histo) (epoch : ℕ) (c : Counts) → epoch_of (set_epoch h epoch c) epoch ≡ c
epoch_of-set_epoch h epoch c = elim (Bool-cases (epoch == 0)) [
  | inl first ↦ rw first refl
  | inr second ↦ rw second refl
]

drain-cell :
    (h : Histo) (epoch : ℕ) (to : Counts) (c : Cell)
    → h.buckets_len ≤ 9
    → length (epoch_of h epoch).counts ≡ 8
    → length to.counts ≡ 8
    → IsCell h c
    → let from = epoch_of h epoch in
      let out = drain (h.buckets_len - 1) from to in
      (cell out.0 c ≡ 0) × (cell out.1 c ≡ word (cell to c + cell from c))
unfolding drain
drain-cell h epoch to low few a b is = (refl, refl)
drain-cell h epoch to high few a b is = (refl, refl)
drain-cell h epoch to (bucket j) few a b is =
    let m =
      move_counts-Moved (h.buckets_len - 1) (epoch_of h epoch).counts to.counts 0 j (omega arith)
        (omega (arith, is)) (omega (arith, a)) (omega (arith, b)) in
    (m.emptied, m.added)

read-drain :
    (h : Histo) (epoch : ℕ) (value : Value) {h' : Histo} {value' : Value}
    → read h epoch value ≡ some (h', value')
    → let out = drain (h.buckets_len - 1) (epoch_of h epoch) value.totals in
      (h' ≡ set_epoch h epoch out.0) × (value'.totals ≡ out.1)
unfolding read
read-drain h epoch value {h'} {value'} run = elim (Bool-cases (value.buckets_len == 0)) [
  | inl fresh ↦
      let e = some_inj (rw (fresh, read) at run) in
      (sym (ap (λ (p : Histo × Value). p.0) e), sym (ap (λ (p : Histo × Value). p.1.totals) e))
  | inr used ↦ elim (Bool-cases (h.buckets_len == value.buckets_len)) [
    | inr other ↦ let bad : none ≡ some (h', value') = rw (used, other, read) at run in cc
    | inl as_many ↦ elim (Bool-cases (same_buckets h.buckets_len h.buckets value.buckets 0)) [
      | inr differ ↦
          let bad : none ≡ some (h', value') = rw (used, as_many, differ, read) at run in cc
      | inl equal ↦
          let e = some_inj (rw (used, as_many, equal, read) at run) in
          (sym (ap (λ (p : Histo × Value). p.0) e), sym (ap (λ (p : Histo × Value). p.1.totals) e))
    ]
  ]
]

-- A read of a histogram of at most nine bounds that succeeds empties every counter of the epoch,
-- and adds what it held to the poller's counter of the same bucket, modulo 2^64; both arrays of
-- counts have eight places.
pub read-cell :
    (h : Histo) (epoch : ℕ) (value : Value) (c : Cell) {h' : Histo} {value' : Value}
    → h.buckets_len ≤ 9
    → length (epoch_of h epoch).counts ≡ 8
    → length value.totals.counts ≡ 8
    → IsCell h c
    → read h epoch value ≡ some (h', value')
    → (cell (epoch_of h' epoch) c ≡ 0)
      × (cell value'.totals c ≡ word (cell value.totals c + cell (epoch_of h epoch) c))
read-cell h epoch value c {h'} {value'} few a b is run =
    let (zeroed, summed) = drain-cell h epoch value.totals c few a b is in
    let out = drain (h.buckets_len - 1) (epoch_of h epoch) value.totals in
    let (is_h, is_v) = read-drain h epoch value run in
    (rw (is_h, epoch_of-set_epoch h epoch out.0) zeroed, rw is_v summed)
