-- ===== src/Lens/Histo/Inc.antt =====
-- src/lens_histo.c: the cell that `lens_histo_inc` picks.
use optics.Base.{
  ℕ, zero, suc, ◌+◌, ◌-◌, ◌≤◌, ◌<◌, ◌≡◌, refl, sym, ap, ◌∙◌, List, Bool, true, false, not, arith,
  none, some, ok, abort, get_or, Bool-cases, false≢true, inl, inr,
}
use optics.Lens.Float.{Float, IsNumber, IsNan}
use optics.Lens.Counter.{word}
use optics.Lens.Histo.{
  Histo, Cell, low, high, bucket, cell, set_cell, epoch_of, set_epoch, find_bucket, pick, inc,
}

module _ (F : Float) (v : Float.D F) where
  open F use {D, lt, ge, of_nat}

  -- the value is below the bound at index `i`
  abbrev pub under : List ℕ → ℕ → Bool
  under buckets i = lt v (of_nat (get_or buckets i 0))

  -- what each cell stands for
  abbrev pub Covers : Histo → Cell → Type 0
  Covers h low = under h.buckets 0 ≡ true
  Covers h high = under h.buckets (h.buckets_len - 1) ≡ false
  Covers h (bucket j) =
      (j + 1 < h.buckets_len) × (under h.buckets j ≡ false) × (under h.buckets (j + 1) ≡ true)

  find_bucket-Covers :
      (n i : ℕ) (buckets : List ℕ)
      → 0 < n
      → under buckets i ≡ false
      → under buckets (i + n) ≡ true
      → (j : ℕ) × (find_bucket F n buckets (i + 1) v ≡ some j)
        × (j < i + n)
        × (under buckets j ≡ false)
        × (under buckets (j + 1) ≡ true)
  unfolding find_bucket
  find_bucket-Covers zero i buckets pos lo hi = absurd (omega arith)
  find_bucket-Covers (suc n) i buckets pos lo hi = elim (Bool-cases (under buckets (i + 1))) [
    | inl hit ↦ let e : i + 1 - 1 ≡ i = omega arith in (i, rw (hit, e), omega arith, lo, hit)
    | inr miss ↦
        let e : i + suc n ≡ i + 1 + n = omega arith in
        let hi' : under buckets (i + 1 + n) ≡ true = rw e at hi in
        let some_left : 0 < n = pos_of n i buckets miss hi' in
        let (j, run, lt, a, b) = find_bucket-Covers n (i + 1) buckets some_left miss hi' in
        (j, rw miss run, omega arith, a, b)
  ]
    where
      pos_of :
          (n i : ℕ) (buckets : List ℕ)
          → under buckets (i + 1) ≡ false
          → under buckets (i + 1 + n) ≡ true
          → 0 < n
      pos_of zero i buckets miss hi =
          let e : i + 1 + 0 ≡ i + 1 = omega arith in absurd (false≢true (sym miss ∙ (rw e at hi)))
      pos_of (suc n) i buckets miss hi = omega arith

  pick-Covers :
      (h : Histo)
      → 2 ≤ h.buckets_len
      → IsNumber F v
      → (c : Cell) × (pick F h v ≡ some c) × Covers h c
  unfolding pick
  pick-Covers h two number = elim (Bool-cases (under h.buckets 0)) [
    | inl below ↦ (low, rw below, below)
    | inr at_least ↦
        let n = h.buckets_len - 1 in
        elim (Bool-cases (under h.buckets n)) [
          | inr above ↦
              let ge_last : ge v (of_nat (get_or h.buckets n 0)) ≡ true = number _ ∙ ap not above in
              (high, rw (at_least, ge_last), above)
          | inl inside ↦
              let ge_last : ge v (of_nat (get_or h.buckets n 0)) ≡ false =
                number _ ∙ ap not inside in
              let e : 0 + n ≡ n = omega arith in
              let (j, run, lt, a, b) =
                find_bucket-Covers n 0 h.buckets (omega arith) at_least (rw e inside) in
              let run' : find_bucket F n h.buckets 1 v ≡ some j = run in
              (bucket j, rw (at_least, ge_last, run'), (omega arith, a, b))
        ]
  ]

  -- In a histogram with at least two bounds, a number is counted without an abort, in a cell whose
  -- bounds cover it.
  pub inc-Covers :
      (h : Histo) (epoch : ℕ)
      → 2 ≤ h.buckets_len
      → IsNumber F v
      → (c : Cell) × (inc F h epoch v
          ≡ ok (
              set_epoch h epoch
                (set_cell (epoch_of h epoch) c (word (cell (epoch_of h epoch) c + 1)))))
        × Covers h c
  unfolding inc
  inc-Covers h epoch two number =
      let (c, run, covers) = pick-Covers h two number in (c, rw (run, inc), covers)

  find_bucket-nan : (n i : ℕ) (buckets : List ℕ) → IsNan F v → find_bucket F n buckets i v ≡ none
  unfolding find_bucket
  find_bucket-nan zero i buckets nan = refl
  find_bucket-nan (suc n) i buckets nan =
      rw ((nan (get_or buckets i 0)).1, find_bucket-nan n (i + 1) buckets nan)

  pick-nan : (h : Histo) → IsNan F v → pick F h v ≡ none
  unfolding pick
  pick-nan h nan = rw (
    (nan (get_or h.buckets 0 0)).1,
    (nan (get_or h.buckets (h.buckets_len - 1) 0)).0,
    find_bucket-nan (h.buckets_len - 1) 1 h.buckets nan,
  )

  -- NaN is in no bucket: to record it aborts the process.
  pub inc-nan : (h : Histo) (epoch : ℕ) → IsNan F v → inc F h epoch v ≡ abort
  unfolding inc
  inc-nan h epoch nan = rw (pick-nan h nan, inc)
