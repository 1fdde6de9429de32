-- ===== src/Poller/Values.antt =====
-- src/poller_poll.c: the values of a poll, kept by key, and the lenses that are read into them.
use optics.Base.{
  ℕ, ◌==◌, Bool, List, [], ◌∷◌, ◌++◌, none, some, Text, length, replicate, set, get_elem?, ltb,
  if◌then◌else◌, Run, ok, abort, ◌>>=◌, ◌>>◌, assert,
}
use optics.Key
use optics.Key.{Key}
use optics.Key.Text.{text}
use optics.Htable
use optics.Htable.{Htable}
use optics.Lens.Float.{Float}
use optics.Lens.Counter
use optics.Lens.Gauge
use optics.Lens.Dist
use optics.Lens.Histo
use optics.Lens.Quantile
use optics.Optics.{Header, LensType, Status, optics_ok, optics_err, optics_busy, at}

-- the zeroed key
abbrev pub blank : Key
blank = record { len = 0; bytes = replicate 256 0 }

-- the three pushes that build the key of a value
unfoldable pub build_key : Text → Text → Text → Run Text
build_key prefix host name = do
  first ← Key.push blank prefix
  second ← Key.push first.0 host
  third ← Key.push second.0 name
  ok (text third.0)

module _ (F : Float) where
  open F use {D, nil}

  -- `union optics_poll_value` with the type of the value, `poll->type`
  pub data Value : Type 0 where
    counter : ℕ → Value
    gauge : D → Value
    dist : Dist.Value F → Value
    histo : Histo.Value → Value
    quantile : Quantile.Value F → Value

  -- what a lens of each type keeps in the region; a distribution has one part for each epoch
  pub data Cell : Type 0 where
    counter : Counter.Counter → Cell
    gauge : Gauge.Gauge F → Cell
    dist : Dist.Dist F → Dist.Dist F → Cell
    histo : Histo.Histo → Cell
    quantile : Quantile.Quantile F → Cell

  -- the zeroed value of a type
  unfoldable pub zeroed : LensType → Value
  zeroed LensType.counter = counter 0
  zeroed LensType.gauge = gauge nil
  zeroed LensType.dist = dist (record {
    n = 0;
    p50 = nil;
    p90 = nil;
    p99 = nil;
    max = nil;
    samples = replicate Dist.samples_max nil;
  })
  zeroed LensType.histo = histo (record { buckets_len = 0; buckets = []; totals = Histo.empty })
  zeroed LensType.quantile =
      quantile (record { quantile = nil; sample = nil; sample_count = 0; count = 0 })

  -- `struct optics_poll`
  pub record Poll : Type 0 where
    pub host : Text
    pub prefix : Text
    pub key : Text
    pub value : Value
    pub ts : ℕ
    pub elapsed : ℕ

  -- What a read meets: the order that `qsort` makes, the draws of the random generator for the lens
  -- at an offset, and whether its lock is taken.
  pub record Chance : Type 0 where
    pub sort : ℕ → List D → List D
    pub draws : ℕ → Dist.Draws
    pub prob : ℕ → ℕ → D → Bool
    pub locked : ℕ → Bool

  -- `struct poller_poll_ctx`, less the table
  pub record Context : Type 0 where
    pub ts : ℕ
    pub elapsed : ℕ
    pub host : Text
    pub prefix : Text
    pub epoch : ℕ

  -- the table of values; the polls are the blocks that its pointers lead to
  pub record Values : Type 0 where
    pub table : Htable
    pub polls : List Poll

  -- the switch of `poller_poll_lens`; a lens that has not the type of the value is an error
  unfoldable pub read : Chance → ℕ → ℕ → Cell → Value → Cell × Value × Status
  read c off epoch (counter x) (counter v) =
      let (x', v') = Counter.read x epoch v in (counter x', counter v', optics_ok)
  read c off epoch (gauge x) (gauge v) = (gauge x, gauge (Gauge.read F x epoch), optics_ok)
  read c off epoch (dist x0 x1) (dist v) =
      let x : Dist.Dist F = if epoch == 0 then x0 else x1 in
      elim (Dist.read F c.sort (c.draws off) (c.locked off) x v) [
        | none ↦ (dist x0 x1, dist v, optics_busy)
        | some (x', v') ↦ (if epoch == 0 then dist x' x1 else dist x0 x', dist v', optics_ok)
      ]
  read c off epoch (histo x) (histo v) = elim (Histo.read x epoch v) [
    | none ↦ (histo x, histo v, optics_err)
    | some (x', v') ↦ (histo x', histo v', optics_ok)
  ]
  read c off epoch (quantile x) (quantile v) =
      let (x', v', done) = Quantile.read F (c.prob off) x epoch v in
      (quantile x', quantile v', if done then optics_ok else optics_err)
  read c off epoch cell value = (cell, value, optics_err)

  -- what the lenses of a region hold, by offset
  abbrev pub Cells : Type 0
  Cells = ℕ → Cell

  -- A poll that is read again keeps the longer of the two times.
  abbrev pub lengthen : ℕ → Poll → Poll
  lengthen elapsed poll =
      if ltb poll.elapsed elapsed then record poll { elapsed = elapsed } else poll

  -- the poll of a key that is not there yet
  abbrev pub first : Context → Header → Poll
  first ctx l = record {
    host = ctx.host;
    prefix = ctx.prefix;
    key = l.name;
    value = zeroed l.type;
    ts = ctx.ts;
    elapsed = ctx.elapsed;
  }

  -- a poll whose pointer the table has, changed in place
  unfoldable pub update : (Poll → Poll) → List Poll → ℕ → List Poll
  update f polls p = elim (get_elem? polls p) [ none ↦ polls | some poll ↦ set polls p (f poll) ]

  -- `poller_get_value`, with the pointer to the poll. A table that grows without end is an abort.
  unfoldable pub get_value : ℕ → Context → Values → Header → Text → Run (Values × ℕ)
  unfolding update
  get_value fuel ctx vals l key = elim (Htable.get fuel vals.table key) [
    | none ↦ abort
    | some (table, r) ↦
        if r.found
        then ok (
          record { table = table; polls = update (lengthen ctx.elapsed) vals.polls r.value },
          r.value,
        )
        else (let p = length vals.polls in
            elim (Htable.put fuel table key p) [
              | none ↦ abort
              | some (table', r') ↦
                  assert r'.found
                  >> ok (record { table = table'; polls = vals.polls ++ (first ctx l ∷ []) }, p)
            ])
  ]

  -- the rest of `poller_poll_lens`; a warning is all that the outcome of the read makes
  unfoldable pub read_into : Chance → ℕ → Header → Cells → Values → ℕ → Run (Cells × Values)
  unfolding read
  read_into c epoch l cells vals p = elim (get_elem? vals.polls p) [
    | none ↦ abort
    | some poll ↦
        let (cell, value, ret) = read c l.off epoch (cells l.off) poll.value in
        ok (
          at cells l.off cell,
          record vals { polls = set vals.polls p (record poll { value = value }) },
        )
  ]

  -- `poller_poll_lens`, which returns optics_ok
  unfoldable pub poll_lens : ℕ → Chance → Context → Cells × Values → Header → Run (Cells × Values)
  unfolding get_value read_into build_key
  poll_lens fuel c ctx (cells, vals) l = do
    key ← build_key ctx.prefix ctx.host l.name
    (vals', p) ← get_value fuel ctx vals l key
    read_into c ctx.epoch l cells vals' p
