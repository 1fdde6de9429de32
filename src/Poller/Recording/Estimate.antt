-- ===== src/Poller/Recording/Estimate.antt =====
-- src/lens_quantile.c: the multiplier, and the count that a read of the other epoch takes.
use optics.Base.{
  ℕ, zero, suc, ◌+◌, ◌-◌, ◌%◌, ◌^◌, ◌==◌, ◌≤◌, ◌≡◌, refl, Bool, true, if◌then◌else◌, Bool-cases,
  inl, inr, arith,
}
use optics.Lens.Float.{Float}
use optics.Lens.Counter
use optics.Lens.Quantile
use optics.Poller.Values.{Value, Cell, Chance}
use optics.Poller.Recording.{quantile_update, record_then_read, read_then_record, Commute}

module _ (F : Float) where
  open F use {D, nil}

  -- the multiplier after an update
  abbrev moved_multiplier : Quantile.Quantile F → Bool → D → ℕ
  moved_multiplier x hit d =
      if F.lt d (Quantile.calculate F x)
      then if hit then x.multiplier else (x.multiplier + 2 ^ 64 - 1) % 2 ^ 64
      else if hit
      then Counter.word (x.multiplier + 1)
      else x.multiplier

  update-moved :
      (x : Quantile.Quantile F) (epoch : ℕ) (hit : Bool) (d : D)
      → Quantile.update F x epoch d hit
        ≡ Quantile.set_count F
            (record x { multiplier = moved_multiplier x hit d })
            epoch
            (Counter.word (Quantile.count F x epoch + 1))
  unfolding Quantile.update
  update-moved x epoch hit d = elim (Bool-cases (F.lt d (Quantile.calculate F x))) [
    | inl below ↦ elim (Bool-cases hit) [ inl e ↦ rw (below, e) | inr e ↦ rw (below, e) ]
    | inr above ↦ elim (Bool-cases hit) [ inl e ↦ rw (above, e) | inr e ↦ rw (above, e) ]
  ]

  calculate_same :
      (x : Quantile.Quantile F) (epoch : ℕ)
      → Quantile.calculate F (Quantile.set_count F x epoch 0) ≡ Quantile.calculate F x
  unfolding Quantile.calculate
  calculate_same x epoch = elim (Bool-cases (epoch == 0)) [ inl e ↦ rw e | inr e ↦ rw e ]

  -- a read, less the sample
  read-facts :
      (prob : ℕ → D → Bool) (x : Quantile.Quantile F) (epoch : ℕ) (v : Quantile.Value F)
      → let (x', v', done) = Quantile.read F prob x epoch v in
        (x' ≡ Quantile.set_count F x epoch 0)
        × (done ≡ (if F.eq v.quantile nil then true else F.eq v.quantile x.target_quantile))
        × (v'.quantile ≡ (if F.eq v.quantile nil then x.target_quantile else v.quantile))
        × (v'.count ≡ (
            if F.eq v.quantile nil
            then Quantile.count F x epoch
            else if F.eq v.quantile x.target_quantile
            then Counter.word (v.count + Quantile.count F x epoch)
            else v.count))
  unfolding Quantile.read
  read-facts prob x epoch v = elim (Bool-cases (F.eq v.quantile nil)) [
    | inl first ↦ rw first (refl, refl, refl, refl)
    | inr old ↦ elim (Bool-cases (F.eq v.quantile x.target_quantile)) [
      | inr other ↦ rw (old, other) (refl, refl, refl, refl)
      | inl same ↦
          elim (Bool-cases
            (Quantile.prefers F prob x (Quantile.calculate F x) (Quantile.count F x epoch) v)) [
              | inl e ↦ rw (old, same, e) (refl, refl, refl, refl)
              | inr e ↦ rw (old, same, e) (refl, refl, refl, refl)
            ]
    ]
  ]

  pub quantile-commutes :
      (c : Chance F) (off epoch : ℕ) (hit : Bool) (d : D) (x : Quantile.Quantile F)
      (v : Quantile.Value F)
      → epoch ≤ 1
      → Commute F c off epoch (quantile_update hit d) (Cell.quantile x) (Value.quantile v)
  unfolding record_then_read read_then_record
  quantile-commutes c off zero hit d x v le =
      let moved = record x {
        multiplier = moved_multiplier x hit d;
        count0 = Counter.word (x.count0 + 1);
      } in
      let (cell, done, bound, total) = read-facts (c.prob off) x 1 v in
      let (cell', done', bound', total') = read-facts (c.prob off) moved 1 v in
      rw (
        update-moved x 0 hit d,
        cell,
        done,
        bound,
        total,
        cell',
        done',
        bound',
        total',
        update-moved (record x { count1 = 0 }) 0 hit d,
        calculate_same x 1,
      )
  quantile-commutes c off (suc zero) hit d x v le =
      let moved = record x {
        multiplier = moved_multiplier x hit d;
        count1 = Counter.word (x.count1 + 1);
      } in
      let (cell, done, bound, total) = read-facts (c.prob off) x 0 v in
      let (cell', done', bound', total') = read-facts (c.prob off) moved 0 v in
      rw (
        update-moved x 1 hit d,
        cell,
        done,
        bound,
        total,
        cell',
        done',
        bound',
        total',
        update-moved (record x { count0 = 0 }) 1 hit d,
        calculate_same x 0,
      )
  quantile-commutes c off (suc (suc n)) hit d x v le = absurd (omega arith)
