-- ===== src/Lens/Dist.antt =====
-- src/lens_dist.c: a sample of the values of each epoch, and how two samples merge.
pub mod Samples
use optics.Base.{
  ℕ, zero, suc, ◌+◌, ◌-◌, ◌*◌, ◌/◌, ◌%◌, ◌^◌, min, List, [], ◌∷◌, Bool, true, false, Option, none,
  some, ltb, leb, ◌==◌, if◌then◌else◌, get_or, set, take, drop, replicate, copy_at,
}
use optics.Lens.Float.{Float}
use optics.Lens.Counter.{word}

abbrev pub samples_max : ℕ
samples_max = 200

-- `lens_dist_reservoir_len`
unfoldable pub reservoir_len : ℕ → ℕ
reservoir_len len = if ltb samples_max len then samples_max else len

-- `lens_dist_p`
unfoldable pub percentile : ℕ → ℕ → ℕ
percentile p n = n * p / 100

-- The answers of the random generator: an index for each draw of `rng_gen_range`, and a hit or a
-- miss for each of `rng_gen_prob`.
pub record Draws : Type 0 where
  pub index : ℕ → ℕ
  pub hit : ℕ → Bool

module _ (F : Float) where
  open F use {D, nil, lt}

  -- `struct lens_dist_epoch`, less its lock
  pub record Dist : Type 0 where
    pub n : ℕ
    pub max : D
    pub samples : List D

  -- the index that `lens_dist_record` writes; `r` is drawn below the number of values
  unfoldable pub place : Dist → ℕ → ℕ
  place d r = if leb samples_max d.n then r else d.n

  -- `lens_dist_record` on the epoch, by the owner of its lock
  unfoldable pub observe : Dist → ℕ → D → Dist
  unfolding place
  observe d r v =
      let i = place d r in
      record {
        n = word (d.n + 1);
        max = if lt d.max v then v else d.max;
        samples = if ltb i samples_max then set d.samples i v else d.samples;
      }

  -- the loop of `lens_dist_merge` over values that are not a sample, from index `i` on
  unfoldable pub replace : (ℕ → ℕ) → ℕ → List D → List D → ℕ → List D
  replace index zero dst from i = dst
  replace index (suc n) dst from i =
      replace index n
        (if ltb (index i) samples_max then set dst (index i) (get_or from i nil) else dst) from
        (i + 1)

  -- the loop of `lens_dist_merge` over two full samples, from index `i` on
  unfoldable pub mix : (ℕ → Bool) → ℕ → List D → List D → ℕ → List D
  mix hit zero dst from i = dst
  mix hit (suc n) dst from i =
      mix hit n (if hit i then set dst i (get_or from i nil) else dst) from (i + 1)

  -- the end of `lens_dist_merge`, once the sample is full
  unfoldable pub sample : Draws → List D → List D → ℕ → List D × ℕ
  unfolding replace mix
  sample draws dst from from_len = (
    if leb from_len samples_max
        then replace draws.index from_len dst from 0
        else mix draws.hit samples_max dst from 0,
    samples_max,
  )

  -- `lens_dist_merge` once the longer side is copied
  unfoldable pub merge_into : Draws → List D → ℕ → List D → ℕ → List D × ℕ
  unfolding sample reservoir_len
  merge_into draws dst dst_len from from_len =
      let to_copy = min (samples_max - dst_len) from_len in
      let filled = copy_at dst dst_len (take to_copy from) in
      if from_len == 0
      then (dst, reservoir_len dst_len)
      else if ltb dst_len samples_max
      then if from_len - to_copy == 0
        then (filled, dst_len + to_copy)
        else sample draws filled (drop to_copy from) (from_len - to_copy)
      else sample draws dst from from_len

  -- `lens_dist_merge`; the array of the result starts with values that are not read
  unfoldable pub merge : Draws → List D → ℕ → List D → ℕ → List D × ℕ
  unfolding merge_into
  merge draws lhs lhs_len rhs rhs_len =
      let blank = replicate samples_max nil in
      if leb rhs_len lhs_len
      then merge_into draws (copy_at blank 0 (take (reservoir_len lhs_len) lhs)) lhs_len rhs rhs_len
      else merge_into draws (copy_at blank 0 (take (reservoir_len rhs_len) rhs)) rhs_len lhs lhs_len

  -- `struct optics_dist`
  pub record Value : Type 0 where
    pub n : ℕ
    pub p50 : D
    pub p90 : D
    pub p99 : D
    pub max : D
    pub samples : List D

  -- `lens_dist_read`; `sort` is `qsort` with the comparison of doubles, on the first values of an
  -- array, and `none` is `optics_busy`
  unfoldable pub read : (ℕ → List D → List D) → Draws → Bool → Dist → Value → Option (Dist × Value)
  unfolding merge percentile
  read sort draws locked d v =
      let top = if lt v.max d.max then d.max else v.max in
      let emptied : Dist = record d { n = 0; max = nil } in
      let (result, len) = merge draws d.samples d.n v.samples v.n in
      let sorted = sort len result in
      if locked
      then none
      else if d.n == 0
      then some (emptied, record v { max = top })
      else some (
        emptied,
        record {
          n = word (v.n + d.n);
          p50 = get_or sorted (percentile 50 len) nil;
          p90 = get_or sorted (percentile 90 len) nil;
          p99 = get_or sorted (percentile 99 len) nil;
          max = top;
          samples = result;
        },
      )
