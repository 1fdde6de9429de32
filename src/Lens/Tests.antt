-- ===== src/Lens/Tests.antt =====
-- Runs of the lenses, with numbers and a NaN in place of doubles.
use optics.Base.{
  replicate, length-replicate, get_or-replicate_lt, ◌≤◌, ℕ, ◌+◌, ◌*◌, ◌/◌, ◌-◌, ◌≡◌, refl, List, [],
  ◌∷◌, true, false, Option, none, some, arith, ok, abort, ltb, leb, ◌==◌, if◌then◌else◌,
}
use optics.Lens.Float.{Float, IsNumber}
use optics.Lens.Counter
use optics.Lens.Gauge
use optics.Lens.Histo
use optics.Lens.Quantile
use optics.Lens.Dist
use optics.Lens.Dist.Samples.{Filled, Merged, merge-Merged}
use optics.Lens.Histo.Read.{read-cell}
use optics.Lens.Counter.{Event, record_value, poll, word, run-held}
use optics.Lens.Gauge.{read-set_all}
use optics.Lens.Histo.{bucket, Cell, Counts}
use optics.Lens.Histo.Inc.{Covers, inc-Covers, inc-nan}
use optics.Lens.Quantile.{read-merges}

abbrev both : {A : Type 0} → A → (ℕ → ℕ → A) → Option ℕ → Option ℕ → A
both nan f none y = nan
both nan f (some a) none = nan
both nan f (some a) (some b) = f a b

abbrev lift : (ℕ → ℕ → ℕ) → Option ℕ → Option ℕ → Option ℕ
lift f = both none (λ a b. some (f a b))

abbrev code : Option ℕ → ℕ
code none = 0
code (some n) = n + 1

abbrev decode : ℕ → Option ℕ
decode n = if n == 0 then none else some (n - 1)

decode-code : (d : Option ℕ) → decode (code d) ≡ d
decode-code none = refl
decode-code (some n) = ground arith

-- whole numbers, and `none` for NaN
abbrev whole : Float
whole = record {
  D = Option ℕ;
  nil = some 0;
  lt = both false ltb;
  ge = both false (λ a b. leb b a);
  eq = both false ◌==◌;
  add = lift ◌+◌;
  sub = lift ◌-◌;
  mul = lift ◌*◌;
  div = lift ◌/◌;
  of_nat = λ n. some n;
  of_int = λ n. some n;
  to_bits = code;
  of_bits = decode;
  of_bits-to_bits = decode-code;
}

run-held_example :
    let es : List Event = record_value 0 5 ∷ poll 1 ∷ record_value 1 7 ∷ poll 0 ∷ [] in
    let s : Counter.Counter × ℕ = (record { value0 = 1; value1 = 2 }, 0) in
    word (Counter.held (Counter.run s es)) ≡ word (Counter.held s + Counter.recorded es)
run-held_example =
    run-held (record_value 0 5 ∷ poll 1 ∷ record_value 1 7 ∷ poll 0 ∷ [])
      (record { value0 = 1; value1 = 2 }, 0)

abbrev at_zero : Gauge.Gauge whole
at_zero = record { value = 0 }

abbrev tens : Histo.Histo
tens = record {
  epoch0 = Histo.empty;
  epoch1 = Histo.empty;
  buckets = 10 ∷ 20 ∷ 30 ∷ [];
  buckets_len = 3;
}

number : (n : ℕ) → IsNumber whole (some n)
number n m = ground arith

inc-Covers_example :
    (c : Cell) × (Histo.inc whole tens 0 (some 25)
      ≡ ok (
          Histo.set_epoch tens 0 (
            Histo.set_cell
              (Histo.epoch_of tens 0)
              c
              (word (Histo.cell (Histo.epoch_of tens 0) c + 1)))))
    × Covers whole (some 25) tens c
inc-Covers_example = inc-Covers whole (some 25) tens 0 (omega arith) (number 25)

inc-nan_example : Histo.inc whole tens 0 none ≡ abort
inc-nan_example = inc-nan whole none tens 0 (λ n. (refl, refl))

abbrev median : Quantile.Quantile whole
median = record {
  target_quantile = some 1;
  original_estimate = some 50;
  adjustment_value = some 2;
  multiplier = 3;
  count0 = 9;
  count1 = 4;
}

abbrev merged : Quantile.Value whole
merged = record { quantile = some 1; sample = some 40; sample_count = 6; count = 20 }

-- 200 samples of one value
abbrev three : Option ℕ
three = some 3

abbrev threes : List (Option ℕ)
threes = replicate 200 three

threes-Filled : (n : ℕ) → n ≤ 200 → Filled whole (λ x. x ≡ three) threes n
threes-Filled n le = record {
  size = length-replicate 200 three;
  room = le;
  each = λ i lt. get_or-replicate_lt 200 i three (some 0) (omega (arith, le, lt));
}

abbrev draws : Dist.Draws
draws = record { index = λ i. i * 7; hit = λ i. true }

merge-Merged_example :
    Merged whole (λ x. x ≡ three) (150 + 120) (Dist.merge whole draws threes 150 threes 120)
merge-Merged_example =
    merge-Merged whole (λ x. x ≡ three) draws 150 120 (threes-Filled 150 (omega arith))
      (threes-Filled 120 (omega arith))

abbrev seen : Dist.Dist whole
seen = record { n = 10; max = some 3; samples = threes }

-- what the poller has of the same bounds
abbrev polled : Histo.Value
polled = record {
  buckets_len = 3;
  buckets = 10 ∷ 20 ∷ 30 ∷ [];
  totals = record { below = 5; above = 0; counts = 1 ∷ 2 ∷ replicate 6 0 };
}

abbrev counted : Histo.Histo
counted = record tens { epoch1 = record { below = 2; above = 1; counts = 3 ∷ 4 ∷ replicate 6 0 } }

abbrev summed : Histo.Value
summed = record polled { totals = record { below = 7; above = 1; counts = 4 ∷ 6 ∷ replicate 6 0 } }

read_run : Histo.read counted 1 polled ≡ some (tens, summed)
unfolding Histo.read Histo.same_buckets Histo.drain Histo.move_counts
read_run = refl

read-cell_example :
    let c : Cell = bucket 1 in
    (Histo.cell (Histo.epoch_of tens 1) c ≡ 0)
    × (Histo.cell summed.totals c
        ≡ word (Histo.cell polled.totals c + Histo.cell (Histo.epoch_of counted 1) c))
read-cell_example =
    read-cell counted 1 polled (bucket 1) (omega arith) refl refl (omega arith) read_run
