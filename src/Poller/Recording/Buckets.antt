-- ===== src/Poller/Recording/Buckets.antt =====
-- src/lens_histo.c: the counter that is picked, and the read of the other epoch.
use optics.Base.{
  ℕ, zero, suc, ◌+◌, ◌-◌, ◌==◌, ◌≤◌, ◌≡◌, not, List, Option, none, some, if◌then◌else◌,
  Option-cases, Bool-cases, inl, inr, arith,
}
use optics.Lens.Float.{Float}
use optics.Lens.Counter
use optics.Lens.Histo
use optics.Poller.Values.{Value, Cell, Chance, read}
use optics.Poller.Recording.{histo_inc, record_value, record_then_read, read_then_record, Commute}

module _ (F : Float) where
  open F use {D, nil}

  -- the bounds that a value has after a read, and `none` where they are refused
  abbrev bounds_after : Histo.Histo → Histo.Value → Option (ℕ × List ℕ)
  bounds_after x v =
      if v.buckets_len == 0
      then some (x.buckets_len, x.buckets)
      else if not (x.buckets_len == v.buckets_len)
      then none
      else if Histo.same_buckets x.buckets_len x.buckets v.buckets 0
      then some (v.buckets_len, v.buckets)
      else none

  abbrev drained :
      Histo.Histo → ℕ → Histo.Value → Option (ℕ × List ℕ) → Option (Histo.Histo × Histo.Value)
  drained x epoch v none = none
  drained x epoch v (some (n, bounds)) =
      let (from, to) = Histo.drain (x.buckets_len - 1) (Histo.epoch_of x epoch) v.totals in
      some (Histo.set_epoch x epoch from, record { buckets_len = n; buckets = bounds; totals = to })

  histo_read-bounds :
      (x : Histo.Histo) (epoch : ℕ) (v : Histo.Value)
      → Histo.read x epoch v ≡ drained x epoch v (bounds_after x v)
  unfolding Histo.read
  histo_read-bounds x epoch v = elim (Bool-cases (v.buckets_len == 0)) [
    | inl first ↦ rw first
    | inr later ↦ elim (Bool-cases (x.buckets_len == v.buckets_len)) [
      | inr other ↦ rw (later, other)
      | inl long ↦ elim (Bool-cases (Histo.same_buckets x.buckets_len x.buckets v.buckets 0)) [
        | inl same ↦ rw (later, long, same)
        | inr differ ↦ rw (later, long, differ)
      ]
    ]
  ]

  pick-set_epoch :
      (x : Histo.Histo) (epoch : ℕ) (n : Histo.Counts) (d : D)
      → Histo.pick F (Histo.set_epoch x epoch n) d ≡ Histo.pick F x d
  unfolding Histo.pick
  pick-set_epoch x epoch n d = elim (Bool-cases (epoch == 0)) [ inl e ↦ rw e | inr e ↦ rw e ]

  pub histo-commutes :
      (c : Chance F) (off epoch : ℕ) (d : D) (x : Histo.Histo) (v : Histo.Value)
      → epoch ≤ 1
      → Commute F c off epoch (histo_inc d) (Cell.histo x) (Value.histo v)
  unfolding record_then_read read_then_record Histo.inc
  histo-commutes c off zero d x v le =
      let from = (Histo.drain (x.buckets_len - 1) x.epoch1 v.totals).0 in
      let same_pick = pick-set_epoch x 1 from d in
      elim (Option-cases (Histo.pick F x d)) [
        | inl e ↦ elim (Option-cases (bounds_after x v)) [
          | inl w ↦ rw (e, Histo.inc, record_value, read, histo_read-bounds x 1 v, w, e)
          | inr (b, w) ↦
              rw (e, Histo.inc, record_value, read, histo_read-bounds x 1 v, w, same_pick, e)
        ]
        | inr (cell, e) ↦
            let counted =
              Histo.set_epoch x 0
                (Histo.set_cell x.epoch0 cell (Counter.word (Histo.cell x.epoch0 cell + 1))) in
            elim (Option-cases (bounds_after x v)) [
              | inl w ↦ rw (
                e,
                Histo.inc,
                record_value,
                read,
                histo_read-bounds x 1 v,
                histo_read-bounds counted 1 v,
                w,
                e,
              )
              | inr (b, w) ↦ rw (
                e,
                Histo.inc,
                record_value,
                read,
                histo_read-bounds x 1 v,
                histo_read-bounds counted 1 v,
                w,
                same_pick,
                e,
              )
            ]
      ]
  histo-commutes c off (suc zero) d x v le =
      let from = (Histo.drain (x.buckets_len - 1) x.epoch0 v.totals).0 in
      let same_pick = pick-set_epoch x 0 from d in
      elim (Option-cases (Histo.pick F x d)) [
        | inl e ↦ elim (Option-cases (bounds_after x v)) [
          | inl w ↦ rw (e, Histo.inc, record_value, read, histo_read-bounds x 0 v, w, e)
          | inr (b, w) ↦
              rw (e, Histo.inc, record_value, read, histo_read-bounds x 0 v, w, same_pick, e)
        ]
        | inr (cell, e) ↦
            let counted =
              Histo.set_epoch x 1
                (Histo.set_cell x.epoch1 cell (Counter.word (Histo.cell x.epoch1 cell + 1))) in
            elim (Option-cases (bounds_after x v)) [
              | inl w ↦ rw (
                e,
                Histo.inc,
                record_value,
                read,
                histo_read-bounds x 0 v,
                histo_read-bounds counted 0 v,
                w,
                e,
              )
              | inr (b, w) ↦ rw (
                e,
                Histo.inc,
                record_value,
                read,
                histo_read-bounds x 0 v,
                histo_read-bounds counted 0 v,
                w,
                same_pick,
                e,
              )
            ]
      ]
  histo-commutes c off (suc (suc n)) d x v le = absurd (omega arith)
