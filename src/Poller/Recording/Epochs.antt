-- ===== src/Poller/Recording/Epochs.antt =====
-- src/optics.c: recording in the epoch that a turn starts, and the poll of the one that it ends.
use optics.Base.{
  ℕ, zero, suc, ◌+◌, ◌-◌, ◌%◌, ◌^◌, ◌≤◌, ◌≡◌, refl, ok, Option-cases, inl, inr, arith, >>=-eq-ok,
  ok_inj, ap, subst,
}
use optics.Lens.Float.{Float}
use optics.Lens.Counter
use optics.Lens.Gauge
use optics.Lens.Dist
use optics.Optics.{Optics, epoch_of, epoch_inc, free_defered}
use optics.Optics.Space.{Allocator}
use optics.Poller.Values.{Value, Cell, Chance, read}
use optics.Poller.Recording.{
  Input, dist_record, Fits, counter, gauge, dist, histo, quantile, record_then_read,
  read_then_record, Commute,
}
use optics.Poller.Recording.Buckets.{histo-commutes}
use optics.Poller.Recording.Estimate.{quantile-commutes}

module _ (F : Float) where
  open F use {D, nil}

  dist-commutes :
      (c : Chance F) (off epoch r : ℕ) (d : D) (x0 x1 : Dist.Dist F) (v : Dist.Value F)
      → epoch ≤ 1
      → Commute F c off epoch (dist_record r d) (Cell.dist x0 x1) (Value.dist v)
  unfolding record_then_read read_then_record
  dist-commutes c off zero r d x0 x1 v le =
      elim (Option-cases (Dist.read F c.sort (c.draws off) (c.locked off) x1 v)) [
        | inl e ↦ rw (e, read)
        | inr (y, e) ↦ rw (e, read)
      ]
  dist-commutes c off (suc zero) r d x0 x1 v le =
      elim (Option-cases (Dist.read F c.sort (c.draws off) (c.locked off) x0 v)) [
        | inl e ↦ rw (e, read)
        | inr (y, e) ↦ rw (e, read)
      ]
  dist-commutes c off (suc (suc n)) r d x0 x1 v le = absurd (omega arith)

  record-read :
      (c : Chance F) (off epoch : ℕ) {i : Input F} {cell : Cell F} {v : Value F}
      → Fits F i cell v
      → epoch ≤ 1
      → Commute F c off epoch i cell v
  unfolding record_then_read read_then_record Counter.inc Counter.read Gauge.set Gauge.read
  record-read c off zero counter le = refl
  record-read c off (suc zero) counter le = refl
  record-read c off (suc (suc n)) counter le = absurd (omega arith)
  record-read c off epoch gauge le = refl
  record-read c off epoch dist le = dist-commutes c off epoch _ _ _ _ _ le
  record-read c off epoch histo le = histo-commutes F c off epoch _ _ _ le
  record-read c off epoch quantile le = quantile-commutes F c off epoch _ _ _ _ le

  module _ {S : Type 0} (A : Allocator S) where
    other_epoch :
        (fuel : ℕ) (o : Optics S) {o' : Optics S} {ended : ℕ}
        → epoch_inc A fuel o ≡ ok (o', ended)
        → (epoch_of A o' ≤ 1) × (1 - epoch_of A o' ≡ ended)
    unfolding epoch_inc epoch_of
    other_epoch fuel o {o'} {ended} run =
        let (o1, freed, done) = >>=-eq-ok (free_defered A fuel o (1 - epoch_of A o)) _ run in
        let out = ok_inj done in
        let epoch : (o.epoch + 1) % 2 ^ 64 ≡ o'.epoch = ap (λ (r : Optics S × ℕ). r.0.epoch) out in
        let end : o.epoch % 2 ≡ ended = ap (λ (r : Optics S × ℕ). r.1) out in
        (omega arith, omega arith)

    -- After a turn of the epoch that returns, a value recorded in the current epoch and a read of
    -- the epoch that ended commute, for a lens of any type that the call and the poller's value
    -- have too: either order leaves the same lens, the same outcomes, an abort included, and the
    -- same value of the poller, apart from a gauge, and from the sample of a quantile and the count
    -- that this sample stands for, which depend on what the epochs share.
    pub epoch_inc-Commute :
        (fuel : ℕ) (o : Optics S) {o' : Optics S} {ended : ℕ} (c : Chance F) (off : ℕ) {i : Input F}
        {cell : Cell F} {v : Value F}
        → epoch_inc A fuel o ≡ ok (o', ended)
        → Fits F i cell v
        → record_then_read F c off (epoch_of A o') ended i cell v
          ≡ read_then_record F c off (epoch_of A o') ended i cell v
    epoch_inc-Commute fuel o {o'} {ended} c off {i} {cell} {v} run fits =
        let (small, other) = other_epoch fuel o run in
        subst
          (λ e.
            record_then_read F c off (epoch_of A o') e i cell v
            ≡ read_then_record F c off (epoch_of A o') e i cell v)
          other (record-read c off (epoch_of A o') fits small)
