-- ===== src/Poller/Recording.antt =====
-- src/optics.c and src/lens_*.c: the calls that record a value, and the order of such a call and a
-- read.
pub mod Buckets
pub mod Estimate
pub mod Epochs
use optics.Base.{
  ℕ, zero, suc, ◌+◌, ◌-◌, ◌%◌, ◌^◌, ◌==◌, ◌≤◌, ◌≡◌, refl, Bool, true, false, not, List, Option,
  none, some, Run, ok, ◌>>=◌, if◌then◌else◌, Option-cases, Bool-cases, inl, inr, arith, >>=-eq-ok,
  ok_inj, ap, subst,
}
use optics.Lens.Float.{Float}
use optics.Lens.Counter
use optics.Lens.Gauge
use optics.Lens.Dist
use optics.Lens.Histo
use optics.Lens.Quantile
use optics.Optics.{Optics, epoch_of, epoch_inc, free_defered, Status, LensType, at}
use optics.Optics.Space.{Allocator}
use optics.Poller.Values.{Value, Cell, Chance, Cells, read, zeroed}

module _ (F : Float) where
  open F use {D, nil}

  -- A call of a recording function. A distribution draws an index, and a quantile a chance at its
  -- target.
  pub data Input : Type 0 where
    counter_inc : ℕ → Input
    gauge_set : D → Input
    dist_record : ℕ → D → Input
    histo_inc : D → Input
    quantile_update : Bool → D → Input

  -- the recording functions on what the lens keeps, in an epoch; a lens of another type is refused
  unfoldable pub record_value : ℕ → Input → Cell F → Run (Cell F × Bool)
  record_value epoch (counter_inc n) (Cell.counter x) =
      ok (Cell.counter (Counter.inc x epoch n), true)
  record_value epoch (gauge_set d) (Cell.gauge x) = ok (Cell.gauge (Gauge.set F x epoch d), true)
  record_value epoch (dist_record r d) (Cell.dist x0 x1) = ok (
    if epoch == 0
        then Cell.dist (Dist.observe F x0 r d) x1
        else Cell.dist x0 (Dist.observe F x1 r d),
    true,
  )
  record_value epoch (histo_inc d) (Cell.histo x) =
      Histo.inc F x epoch d >>= λ x'. ok (Cell.histo x', true)
  record_value epoch (quantile_update hit d) (Cell.quantile x) =
      ok (Cell.quantile (Quantile.update F x epoch d hit), true)
  record_value epoch i cell = ok (cell, false)

  module _ {S : Type 0} (A : Allocator S) where
    -- the recording functions of optics.h on the lens at an offset
    unfoldable pub record_at : Optics S → Cells F → ℕ → Input → Run (Cells F × Bool)
    unfolding record_value
    record_at o cells off i =
        record_value (epoch_of A o) i (cells off) >>= λ r. ok (at cells off r.0, r.1)

  -- A call, a lens and a value of the poller of one type.
  pub data Fits : Input → Cell F → Value F → Type 0 where
    counter :
        {n : ℕ} {x : Counter.Counter} {v : ℕ}
        → Fits (counter_inc n) (Cell.counter x) (Value.counter v)
    gauge : {d v : D} {x : Gauge.Gauge F} → Fits (gauge_set d) (Cell.gauge x) (Value.gauge v)
    dist :
        {r : ℕ} {d : D} {x0 x1 : Dist.Dist F} {v : Dist.Value F}
        → Fits (dist_record r d) (Cell.dist x0 x1) (Value.dist v)
    histo :
        {d : D} {x : Histo.Histo} {v : Histo.Value}
        → Fits (histo_inc d) (Cell.histo x) (Value.histo v)
    quantile :
        {hit : Bool} {d : D} {x : Quantile.Quantile F} {v : Quantile.Value F}
        → Fits (quantile_update hit d) (Cell.quantile x) (Value.quantile v)

  -- A value less what the two epochs share: a gauge is its last value whatever the epoch, and so is
  -- the estimate of a quantile.
  unfoldable pub of_epoch : Value F → Value F
  of_epoch (Value.gauge v) = Value.gauge nil
  of_epoch (Value.quantile v) = Value.quantile (record v { sample = nil; sample_count = 0 })
  of_epoch v = v

  -- what a call and a read of the other epoch leave together
  pub record Both : Type 0 where
    pub cell : Cell F
    pub recorded : Bool
    pub value : Value F
    pub status : Status

  -- the call first
  unfoldable pub record_then_read : Chance F → ℕ → ℕ → ℕ → Input → Cell F → Value F → Run Both
  unfolding record_value read of_epoch
  record_then_read c off epoch ended i cell v = record_value epoch i cell >>= λ r.
      let (cell', v', status) = read F c off ended r.0 v in
      ok (record { cell = cell'; recorded = r.1; value = of_epoch v'; status = status })

  -- the read first
  unfoldable pub read_then_record : Chance F → ℕ → ℕ → ℕ → Input → Cell F → Value F → Run Both
  unfolding record_value read of_epoch
  read_then_record c off epoch ended i cell v =
      let (cell', v', status) = read F c off ended cell v in
      record_value epoch i cell' >>= λ r.
      ok (record { cell = r.0; recorded = r.1; value = of_epoch v'; status = status })

  -- Either order leaves the same.
  abbrev pub Commute : Chance F → ℕ → ℕ → Input → Cell F → Value F → Type 0
  Commute c off epoch i cell v =
      record_then_read c off epoch (1 - epoch) i cell v
      ≡ read_then_record c off epoch (1 - epoch) i cell v
