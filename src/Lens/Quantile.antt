-- ===== src/Lens/Quantile.antt =====
-- src/lens_quantile.c: a running estimate of a quantile that random steps move.
use optics.Base.{
  ℕ, ◌+◌, ◌-◌, ◌%◌, ◌^◌, ◌≡◌, Bool, true, false, not, arith, ltb, leb, ◌==◌, if◌then◌else◌,
}
use optics.Lens.Float.{Float}
use optics.Lens.Counter.{word}

module _ (F : Float) where
  open F use {D, nil, lt, eq, add, sub, mul, div, of_nat, of_int}

  -- `struct lens_quantile`; the multiplier is the 64-bit pattern of a signed number.
  pub record Quantile : Type 0 where
    pub target_quantile : D
    pub original_estimate : D
    pub adjustment_value : D
    pub multiplier : ℕ
    pub count0 : ℕ
    pub count1 : ℕ

  -- `lens_quantile_alloc`, once the header of the lens is there
  unfoldable pub new : D → D → D → Quantile
  new target estimate adjustment = record {
    target_quantile = target;
    original_estimate = estimate;
    adjustment_value = adjustment;
    multiplier = 0;
    count0 = 0;
    count1 = 0;
  }

  abbrev pub count : Quantile → ℕ → ℕ
  count q epoch = if epoch == 0 then q.count0 else q.count1

  abbrev pub set_count : Quantile → ℕ → ℕ → Quantile
  set_count q epoch n = if epoch == 0 then record q { count0 = n } else record q { count1 = n }

  -- `calculate_quantile`
  unfoldable pub calculate : Quantile → D
  calculate q = add q.original_estimate (mul (of_int q.multiplier) q.adjustment_value)

  -- `lens_quantile_update`; `hit` is the outcome of `rng_gen_prob` at the target quantile
  unfoldable pub update : Quantile → ℕ → D → Bool → Quantile
  update q epoch v hit =
      let moved =
        if lt v (calculate q)
        then if hit then q else record q { multiplier = (q.multiplier + 2 ^ 64 - 1) % 2 ^ 64 }
        else if hit
        then record q { multiplier = word (q.multiplier + 1) }
        else q in
      set_count moved epoch (word (count q epoch + 1))

  -- `struct optics_quantile`
  pub record Value : Type 0 where
    pub quantile : D
    pub sample : D
    pub sample_count : ℕ
    pub count : ℕ

  abbrev delta : ℕ → ℕ → ℕ
  delta a b = if ltb b a then a - b else b - a

  -- The choice of `lens_quantile_read` between its sample and the one it has. `prob k` is what the
  -- draw `k` of `rng_gen_prob` in the call answers at a probability.
  unfoldable pub prefers : (ℕ → D → Bool) → Quantile → D → ℕ → Value → Bool
  prefers prob q sample n v =
      if prob 0 (div (of_nat (delta n v.sample_count)) (of_nat (word (n + v.sample_count))))
      then leb v.sample_count n
      else if lt v.sample sample
      then prob 1 q.target_quantile
      else prob 1 (sub (of_nat 1) q.target_quantile)

  -- `lens_quantile_read`; the flag is false for `optics_err`. The count of the epoch is taken in any
  -- case.
  unfoldable pub read : (ℕ → D → Bool) → Quantile → ℕ → Value → Quantile × Value × Bool
  read prob q epoch v =
      let sample = calculate q in
      let n = count q epoch in
      let q' = set_count q epoch 0 in
      if eq v.quantile nil
      then (
        q',
        record { quantile = q.target_quantile; sample = sample; sample_count = n; count = n },
        true,
      )
      else if not (eq v.quantile q.target_quantile)
      then (q', v, false)
      else if prefers prob q sample n v
      then (q', record v { sample = sample; sample_count = n; count = word (v.count + n) }, true)
      else (q', record v { count = word (v.count + n) }, true)

  -- A read into a poller's value that is set and of the same quantile empties the count of the
  -- epoch, adds it to the total, and keeps one of the two samples with its count.
  pub read-merges :
      (prob : ℕ → D → Bool) (q : Quantile) (epoch : ℕ) (v : Value)
      → eq v.quantile nil ≡ false
      → eq v.quantile q.target_quantile ≡ true
      → let (q', v', done) = read prob q epoch v in
        (done ≡ true)
        × (count q' epoch ≡ 0)
        × (v'.count ≡ word (v.count + count q epoch))
        × (v'.sample_count ≡ (
            if prefers prob q (calculate q) (count q epoch) v
            then count q epoch
            else v.sample_count))
  unfolding read
  read-merges prob q epoch v old same = ground arith
