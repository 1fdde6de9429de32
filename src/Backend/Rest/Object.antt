-- ===== src/Backend/Rest/Object.antt =====
-- src/backend_rest.c: the metrics as a JSON object, whatever calls print it.
use optics.Base.{
  concat, ℕ, zero, suc, ◌+◌, ◌-◌, ◌≡◌, refl, List, [], ◌∷◌, ◌++◌, map, Text, seq, bytes, get_or,
  append_assoc, append-nil,
}
use optics.Lens.Float.{Float}
use optics.Lens.Histo
use optics.Poller.Values.{Value, counter, gauge, dist, histo, quantile}
use optics.Poller.Normalize.{decimal}
use optics.Backend.Rest.{Metric, bucket_texts, value_texts}

-- `"key":value`, and what follows it
abbrev pub member : Text × Text → Text → Text
member f rest = b'"' ∷ (f.0 ++ (b'"' ∷ b':' ∷ (f.1 ++ rest)))

-- further fields, each behind a comma
unfoldable pub more : List (Text × Text) → Text → Text
more [] rest = rest
more (f ∷ fs) rest = b',' ∷ member f (more fs rest)

unfoldable pub members : List (Text × Text) → Text → Text
unfolding more
members [] rest = rest
members (f ∷ fs) rest = member f (more fs rest)

-- an object of these fields
unfoldable pub object : List (Text × Text) → Text
unfolding members
object fs = b'{' ∷ members fs (b'}' ∷ [])

abbrev pub bucket_field : Histo.Value → ℕ → Text × Text
bucket_field v i = (
  bytes "bucket_"
      ++ (decimal (get_or v.buckets i 0) ++ (bytes "-" ++ decimal (get_or v.buckets (i + 1) 0))),
  decimal (get_or v.totals.counts i 0),
)

module _ (F : Float) (show : Float.D F → Text) where
  -- The value of a field. A histogram has its counters below and above the bounds under each other's
  -- name.
  unfoldable pub json : Value F → Text
  unfolding object
  json (counter v) = decimal v
  json (gauge v) = show v
  json (dist v) = object (
      (bytes "p50", show v.p50)
      ∷ (bytes "p90", show v.p90)
      ∷ (bytes "p99", show v.p99)
      ∷ (bytes "max", show v.max)
      ∷ (bytes "count", decimal v.n)
      ∷ [])
  json (histo v) = object (
      (bytes "below", decimal v.totals.above)
      ∷ (bytes "above", decimal v.totals.below)
      ∷ map (bucket_field v) (seq 0 (v.buckets_len - 1)))
  json (quantile v) =
      object ((bytes "value", show v.sample) ∷ (bytes "count", decimal v.count) ∷ [])

  abbrev pub field : Metric F → Text × Text
  field m = (m.key, json m.value)

  -- what follows the texts of a value
  unfoldable pub closing : Value F → Text
  closing (histo v) = b'}' ∷ []
  closing (counter v) = []
  closing (gauge v) = []
  closing (dist v) = []
  closing (quantile v) = []

  abbrev pub metric_text : Metric F → Text
  metric_text m = concat (value_texts F show m.key m.value) ++ closing m.value

  buckets-more :
      (n i : ℕ) (v : Histo.Value) (rest : Text)
      → concat (bucket_texts n v i) ++ rest ≡ more (map (bucket_field v) (seq i n)) rest
  unfolding bucket_texts more
  buckets-more zero i v rest = refl
  buckets-more (suc n) i v rest = simp (append_assoc, buckets-more n (i + 1) v rest)

  more-append : (fs : List (Text × Text)) (a rest : Text) → more fs a ++ rest ≡ more fs (a ++ rest)
  unfolding more
  more-append [] a rest = refl
  more-append (f ∷ fs) a rest = simp (append_assoc, more-append fs a rest)

  value_texts-member :
      (key : Text) (value : Value F) (rest : Text)
      → (concat (value_texts F show key value) ++ closing value) ++ rest
        ≡ member (key, json value) rest
  unfolding value_texts closing json object members more
  value_texts-member key (counter v) rest = simp (append_assoc, append-nil)
  value_texts-member key (gauge v) rest = simp (append_assoc, append-nil)
  value_texts-member key (dist v) rest = simp (append_assoc, append-nil)
  value_texts-member key (histo v) rest =
      let more_buckets = buckets-more (v.buckets_len - 1) 0 v (b'}' ∷ rest) in
      let all = map (bucket_field v) (seq 0 (v.buckets_len - 1)) in
      simp (append_assoc, more_buckets, more-append all (b'}' ∷ []) rest)
  value_texts-member key (quantile v) rest = simp (append_assoc, append-nil)

  -- the printed text of a metric is its field
  pub metric_text-member :
      (m : Metric F) (rest : Text) → metric_text m ++ rest ≡ member (field m) rest
  metric_text-member m rest = value_texts-member m.key m.value rest
