-- ===== src/Backend/Rest.antt =====
-- src/backend_rest.c: the metrics of the last poll, sorted, as the text that a request gets.
pub mod Published
pub mod Object
pub mod Json
use optics.Base.{
  ℕ, zero, suc, ◌+◌, ◌-◌, ◌*◌, Bool, true, false, List, [], ◌∷◌, ◌++◌, Option, none, some, Text,
  bytes, length, take, get_or, ltb, ◌==◌, if◌then◌else◌, Run, ok, abort, ◌>>=◌,
}
use optics.Buffer
use optics.Buffer.{Buffer}
use optics.Lens.Float.{Float}
use optics.Lens.Histo
use optics.Crest.Response.{Response, add_header, write}
use optics.Poller.{Event, begin, metric, finish}
use optics.Poller.Values.{Value, counter, gauge, dist, histo, quantile, Poll, build_key}
use optics.Poller.Normalize.{decimal}

abbrev pub metrics_init_cap : ℕ
metrics_init_cap = 128

-- `strncmp(a, b, ...) <= 0` on texts that are cut to the length
unfoldable pub text_leb : Text → Text → Bool
text_leb [] b = true
text_leb (x ∷ xs) [] = false
text_leb (x ∷ xs) (y ∷ ys) =
    let rest = text_leb xs ys in if ltb x y then true else if x == y then rest else false

-- a row of calls of `buffer_printf`
unfoldable pub print_all : Buffer → List Text → Run Buffer
print_all b [] = ok b
print_all b (t ∷ ts) = Buffer.printf b (some t) >>= λ b'. print_all b' ts

abbrev pub quoted : Text → Text
quoted t = bytes "\"" ++ (t ++ bytes "\":")

-- the loop over the buckets from index `i` on, of which `n` are left
unfoldable pub bucket_texts : ℕ → Histo.Value → ℕ → List Text
bucket_texts zero h i = []
bucket_texts (suc n) h i =
    (bytes ",\"bucket_"
      ++ (decimal (get_or h.buckets i 0)
          ++ (bytes "-"
              ++ (decimal (get_or h.buckets (i + 1) 0)
                  ++ (bytes "\":" ++ decimal (get_or h.totals.counts i 0))))))
    ∷ bucket_texts n h (i + 1)

module _ (F : Float) where
  open F use {D}

  -- `struct metric`
  pub record Metric : Type 0 where
    pub key : Text
    pub value : Value F

  -- `struct metrics`, whose `len` is the length of `items`
  pub record Metrics : Type 0 where
    pub cap : ℕ
    pub items : List Metric

  -- the table with one more metric, after it has grown
  abbrev pub extended : Option Metrics → Text → Value F → Metrics
  extended metrics key value =
      let held : Metrics = elim metrics [
        | none ↦ record { cap = metrics_init_cap; items = [] }
        | some m ↦ m
      ] in
      record {
        cap = if length held.items == held.cap then held.cap * 2 else held.cap;
        items = held.items ++ (record { key = take 256 key; value = value } ∷ []);
      }

  -- `metrics_append`; `none` stands for NULL
  unfoldable pub append : Option Metrics → Poll F → Run Metrics
  append metrics poll =
      build_key poll.prefix poll.host poll.key >>= λ key. ok (extended metrics key poll.value)

  -- `metrics_cmp`: whether the first may stand before the second
  abbrev pub metric_leb : Metric → Metric → Bool
  metric_leb a b = text_leb (take 256 a.key) (take 256 b.key)

  unfoldable pub insert : Metric → List Metric → List Metric
  insert m [] = m ∷ []
  insert m (x ∷ xs) = let rest = insert m xs in if metric_leb m x then m ∷ x ∷ xs else x ∷ rest

  -- `metrics_sort`; `qsort` leaves metrics with the same key in an order of its own, here in theirs
  unfoldable pub sort : List Metric → List Metric
  unfolding insert
  sort [] = []
  sort (m ∷ ms) = insert m (sort ms)

  -- `struct rest`, less its lock
  pub record Rest : Type 0 where
    pub current : Option Metrics
    pub build : Option Metrics

  -- `swap_tables`
  unfoldable pub swap_tables : Rest → Rest
  swap_tables rest = elim rest.build as (λ _. Rest) [
    | none ↦ record { current = none; build = none }
    | some m ↦ record { current = some (record m { items = sort m.items }); build = none }
  ]

  -- `rest_dump`
  unfoldable pub dump : Rest → Event (Poll F) → Run Rest
  unfolding append swap_tables
  dump rest begin = ok (record rest { build = none })
  dump rest finish = ok (swap_tables rest)
  dump rest (metric poll) = append rest.build poll >>= λ m. ok (record rest { build = some m })

  -- a row of events to the back-end
  unfoldable pub dump_all : Rest → List (Event (Poll F)) → Run Rest
  dump_all rest [] = ok rest
  dump_all rest (e ∷ es) = dump rest e >>= λ rest'. dump_all rest' es

  -- The end of a value. With no bounds the loop over the buckets would have read past the value.
  unfoldable pub close_value : Buffer → Value F → Run Buffer
  close_value b (histo v) = if v.buckets_len == 0 then abort else ok (Buffer.put b b'}')
  close_value b (counter v) = ok b
  close_value b (gauge v) = ok b
  close_value b (dist v) = ok b
  close_value b (quantile v) = ok b

  -- the metrics of a table, none for NULL
  abbrev pub items_of : Option Metrics → List Metric
  items_of none = []
  items_of (some m) = m.items

  module _ (show : D → Text) where
    -- The texts that `write_counter` prints for a value, each by its own call. The counters below and
    -- above the bounds of a histogram stand under each other's name.
    unfoldable pub value_texts : Text → Value F → List Text
    unfolding bucket_texts
    value_texts key (counter v) = (quoted key ++ decimal v) ∷ []
    value_texts key (gauge v) = (quoted key ++ show v) ∷ []
    value_texts key (dist v) =
        (quoted key
          ++ (bytes "{\"p50\":"
              ++ (show v.p50
                  ++ (bytes ",\"p90\":"
                      ++ (show v.p90
                          ++ (bytes ",\"p99\":"
                              ++ (show v.p99
                                  ++ (bytes ",\"max\":"
                                      ++ (show v.max
                                          ++ (bytes ",\"count\":"
                                              ++ (decimal v.n ++ bytes "}")))))))))))
        ∷ []
    value_texts key (histo v) =
        (quoted key
          ++ (bytes "{\"below\":"
              ++ (decimal v.totals.above ++ (bytes ",\"above\":" ++ decimal v.totals.below))))
        ∷ bucket_texts (v.buckets_len - 1) v 0
    value_texts key (quantile v) =
        (quoted key
          ++ (bytes "{\"value\":"
              ++ (show v.sample ++ (bytes ",\"count\":" ++ (decimal v.count ++ bytes "}")))))
        ∷ []

    -- `write_counter`
    unfoldable pub write_counter : Buffer → Metric → Run Buffer
    unfolding print_all value_texts close_value
    write_counter b m = print_all b (value_texts m.key m.value) >>= λ b'. close_value b' m.value

    -- the loop of `rest_get`; the flag says that a metric has been written
    unfoldable pub write_metrics : Bool → Buffer → List Metric → Run Buffer
    unfolding write_counter
    write_metrics later b [] = ok b
    write_metrics later b (m ∷ ms) =
        write_counter (if later then Buffer.put b b',' else b) m >>= λ b'. write_metrics true b' ms

    -- `rest_get`, which returns crest_ok; a table of headers that grows without end is an abort
    unfoldable pub rest_get : ℕ → Rest → Response → Run Response
    unfolding write_metrics
    rest_get fuel rest resp =
        write_metrics false (Buffer.put Buffer.reset b'{') (items_of rest.current) >>= λ b.
        (let text = Buffer.put b b'}' in
          elim (add_header fuel resp (bytes "content-type") (bytes "text/plain")) [
            | none ↦ abort
            | some resp' ↦ ok (write resp' (take text.len text.bytes))
          ])
