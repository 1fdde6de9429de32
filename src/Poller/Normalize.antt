-- ===== src/Poller/Normalize.antt =====
-- src/optics.c: optics_poll_normalize, with the normalisation of src/lens_*.c: a value as a row of
-- named numbers.
pub mod Samples
use optics.Base.{
  ℕ, zero, suc, ◌+◌, ◌-◌, ◌*◌, ◌/◌, ◌%◌, Bool, true, false, List, [], ◌∷◌, ◌++◌, Text, bytes, take,
  get_or, ltb, ◌==◌, if◌then◌else◌, Run, ok, abort, ◌>>=◌,
}
use optics.Key
use optics.Key.{Key}
use optics.Key.Text.{text}
use optics.Lens.Float.{Float}
use optics.Lens.Histo
use optics.Lens.Dist
use optics.Poller.Values.{Value, counter, gauge, dist, histo, quantile, Poll, blank}

-- the decimal digits of a number, as `%lu` prints it; a word has 20 digits at most
unfoldable pub digits : ℕ → ℕ → Text
digits zero n = []
digits (suc fuel) n =
    let front = digits fuel (n / 10) in
    if ltb n 10 then (b'0' + n) ∷ [] else front ++ ((b'0' + n % 10) ∷ [])

unfoldable pub decimal : ℕ → Text
unfolding digits
decimal n = digits 20 n

module _ (F : Float) where
  open F use {D, div, of_nat, of_int}

  -- `optics_normalize_cb_t`, over the state that `ctx` points to
  abbrev pub Callback : Type 0 → Type 0
  Callback C = C → ℕ → Text → D → Run (C × Bool)

  -- `lens_rescale`
  unfoldable pub rescale : Poll F → D → D
  rescale poll value = div value (of_nat poll.elapsed)

  -- what optics_key_pushf pushes of the name of a bucket, `bucket_%lu_%lu`
  abbrev pub bucket_name : ℕ → ℕ → Text
  bucket_name lo hi = take 255 (bytes "bucket_" ++ (decimal lo ++ (bytes "_" ++ decimal hi)))

  -- the loop over the buckets from index `i` on, of which `n` are left: what each is called by
  unfoldable pub bucket_samples : ℕ → Poll F → Histo.Value → ℕ → List (Text × D)
  bucket_samples zero poll h i = []
  bucket_samples (suc n) poll h i =
      (
        bucket_name (get_or h.buckets i 0) (get_or h.buckets (i + 1) 0),
        rescale poll (of_nat (get_or h.totals.counts i 0)),
      )
      ∷ bucket_samples n poll h (i + 1)

  -- the suffixes of `lens_dist_normalize`, and those of `lens_histo_normalize`
  abbrev pub dist_parts : Poll F → Dist.Value F → List (Text × D)
  dist_parts poll v =
      (bytes "count", rescale poll (of_nat v.n))
      ∷ (bytes "p50", v.p50)
      ∷ (bytes "p90", v.p90)
      ∷ (bytes "p99", v.p99)
      ∷ (bytes "max", v.max)
      ∷ []

  abbrev pub histo_parts : Poll F → Histo.Value → List (Text × D)
  histo_parts poll v =
      (bytes "below", rescale poll (of_nat v.totals.below))
      ∷ (bytes "above", rescale poll (of_nat v.totals.above))
      ∷ bucket_samples (v.buckets_len - 1) poll v 0

  module _ {C : Type 0} (cb : Callback C) where
    -- A row of suffixes with their values, until a call of the callback returns false: each suffix
    -- is pushed onto the key, and popped again.
    unfoldable pub emit : Key → ℕ → List (Text × D) → C → Run (C × Bool)
    emit key ts [] c = ok (c, true)
    emit key ts (s ∷ ss) c = Key.push key s.0 >>= λ pushed. cb c ts (text pushed.0) s.1 >>= λ r.
        Key.pop pushed.0 pushed.1 >>= λ key'.
        (let rest = emit key' ts ss r.0 in if r.1 then rest else ok (r.0, false))

    -- `lens_dist_normalize`
    unfoldable pub normalize_dist : Poll F → Dist.Value F → C → Run (C × Bool)
    unfolding emit
    normalize_dist poll v c =
        Key.push blank poll.key >>= λ pushed. emit pushed.0 poll.ts (dist_parts poll v) c

    -- `lens_histo_normalize`. With no bounds the loop would read past the value.
    unfoldable pub normalize_histo : Poll F → Histo.Value → C → Run (C × Bool)
    unfolding emit bucket_samples
    normalize_histo poll v c = Key.push blank poll.key >>= λ pushed.
        if v.buckets_len == 0 then abort else emit pushed.0 poll.ts (histo_parts poll v) c

    -- the switch of `optics_poll_normalize`
    unfoldable pub normalize_value : Poll F → Value F → C → Run (C × Bool)
    unfolding normalize_dist normalize_histo
    normalize_value poll (counter v) c = cb c poll.ts poll.key (rescale poll (of_int v))
    normalize_value poll (gauge v) c = cb c poll.ts poll.key v
    normalize_value poll (dist v) c = normalize_dist poll v c
    normalize_value poll (histo v) c = normalize_histo poll v c
    normalize_value poll (quantile v) c = cb c poll.ts poll.key v.sample

    -- `optics_poll_normalize`
    unfoldable pub normalize : Poll F → C → Run (C × Bool)
    unfolding normalize_value
    normalize poll c = normalize_value poll poll.value c
