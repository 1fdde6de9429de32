-- ===== src/Lens/Histo.antt =====
-- src/lens_histo.c: counts of values by bucket, for each of two epochs.
pub mod Inc
pub mod Read
use optics.Base.{
  ℕ, zero, suc, ◌+◌, ◌-◌, ◌*◌, ◌%◌, ◌^◌, List, [], ◌∷◌, Bool, true, false, ◌&&◌, not, Option, none,
  some, ltb, leb, ◌==◌, if◌then◌else◌, Run, ok, abort, length, get_or, set, take, replicate,
}
use optics.Lens.Float.{Float}
use optics.Lens.Counter.{word}

abbrev pub buckets_max : ℕ
buckets_max = 8

-- `struct lens_histo_epoch`, and the counters of `struct optics_histo`
pub record Counts : Type 0 where
  pub below : ℕ
  pub above : ℕ
  pub counts : List ℕ

abbrev pub empty : Counts
empty = record { below = 0; above = 0; counts = replicate buckets_max 0 }

-- `struct lens_histo`; the bounds of the buckets are the first `buckets_len` of the array.
pub record Histo : Type 0 where
  pub epoch0 : Counts
  pub epoch1 : Counts
  pub buckets : List ℕ
  pub buckets_len : ℕ

abbrev pub epoch_of : Histo → ℕ → Counts
epoch_of h epoch = if epoch == 0 then h.epoch0 else h.epoch1

abbrev pub set_epoch : Histo → ℕ → Counts → Histo
set_epoch h epoch c = if epoch == 0 then record h { epoch0 = c } else record h { epoch1 = c }

-- the test of the bounds in `lens_histo_alloc`, over the pairs from index `i` on
unfoldable pub increasing : ℕ → List ℕ → ℕ → Bool
increasing zero buckets i = true
increasing (suc n) buckets i =
    let rest = increasing n buckets (i + 1) in
    if leb (get_or buckets (i + 1) 0) (get_or buckets i 0) then false else rest

-- `lens_histo_alloc`, once the header of the lens is there; `none` for bounds that are refused
unfoldable pub new : List ℕ → ℕ → Option Histo
unfolding increasing
new buckets buckets_len =
    if ltb buckets_len 2
    then none
    else if ltb (buckets_max + 1) buckets_len
    then none
    else if increasing (buckets_len - 1) buckets 0
    then some (record {
      epoch0 = empty;
      epoch1 = empty;
      buckets = take buckets_len buckets;
      buckets_len = buckets_len;
    })
    else none

-- the counter that `lens_histo_inc` picks
pub data Cell : Type 0 where
  low : Cell
  high : Cell
  bucket : ℕ → Cell

abbrev pub cell : Counts → Cell → ℕ
cell c low = c.below
cell c high = c.above
cell c (bucket j) = get_or c.counts j 0

abbrev pub set_cell : Counts → Cell → ℕ → Counts
set_cell c low v = record c { below = v }
set_cell c high v = record c { above = v }
set_cell c (bucket j) v = record c { counts = set c.counts j v }

module _ (F : Float) where
  open F use {D, lt, ge, of_nat}

  -- the loop over the upper bounds from index `i` on
  unfoldable pub find_bucket : ℕ → List ℕ → ℕ → D → Option ℕ
  find_bucket zero buckets i v = none
  find_bucket (suc n) buckets i v =
      let rest = find_bucket n buckets (i + 1) v in
      if lt v (of_nat (get_or buckets i 0)) then some (i - 1) else rest

  unfoldable pub pick : Histo → D → Option Cell
  unfolding find_bucket
  pick h v =
      if lt v (of_nat (get_or h.buckets 0 0))
      then some low
      else if ge v (of_nat (get_or h.buckets (h.buckets_len - 1) 0))
      then some high
      else elim (find_bucket (h.buckets_len - 1) h.buckets 1 v) [
        | none ↦ none
        | some j ↦ some (bucket j)
      ]

  -- `lens_histo_inc`
  unfoldable pub inc : Histo → ℕ → D → Run Histo
  inc h epoch v = elim (pick h v) [
    | none ↦ abort
    | some c ↦
        let counts = epoch_of h epoch in
        ok (set_epoch h epoch (set_cell counts c (word (cell counts c + 1))))
  ]

-- `struct optics_histo`
pub record Value : Type 0 where
  pub buckets_len : ℕ
  pub buckets : List ℕ
  pub totals : Counts

-- the comparison of the bounds in `lens_histo_read`
unfoldable pub same_buckets : ℕ → List ℕ → List ℕ → ℕ → Bool
same_buckets zero a b i = true
same_buckets (suc n) a b i =
    let rest = same_buckets n a b (i + 1) in if get_or a i 0 == get_or b i 0 then rest else false

-- the loop that moves the counts of the buckets from index `i` on
unfoldable pub move_counts : ℕ → List ℕ → List ℕ → ℕ → List ℕ × List ℕ
move_counts zero from to i = (from, to)
move_counts (suc n) from to i =
    move_counts n (set from i 0) (set to i (word (get_or to i 0 + get_or from i 0))) (i + 1)

-- the counters of an epoch, moved to the poller's value
unfoldable pub drain : ℕ → Counts → Counts → Counts × Counts
unfolding move_counts
drain n from to =
    let (from', to') = move_counts n from.counts to.counts 0 in
    (
      record { below = 0; above = 0; counts = from' },
      record {
        below = word (to.below + from.below);
        above = word (to.above + from.above);
        counts = to';
      },
    )

-- `lens_histo_read`; `none` is `optics_err`
unfoldable pub read : Histo → ℕ → Value → Option (Histo × Value)
unfolding same_buckets
read h epoch value =
    let (from, to) = drain (h.buckets_len - 1) (epoch_of h epoch) value.totals in
    if value.buckets_len == 0
    then some (
      set_epoch h epoch from,
      record { buckets_len = h.buckets_len; buckets = h.buckets; totals = to },
    )
    else if not (h.buckets_len == value.buckets_len)
    then none
    else if same_buckets h.buckets_len h.buckets value.buckets 0
    then some (set_epoch h epoch from, record value { totals = to })
    else none
