-- ===== src/Poller/Normalize/Samples.antt =====
-- src/optics.c: the names and numbers that a value is reported by.
use optics.Base.{
  ℕ, zero, suc, ◌+◌, ◌-◌, ◌++◌, bytes, get_or, seq, ◌≡◌, ◌≢◌, refl, ap, ◌∙◌, Bool, true, false,
  List, [], ◌∷◌, map, Text, take, if◌then◌else◌, Run, ok, abort, ◌>>=◌, >>=-congr, ne→not-==,
}
use optics.Key
use optics.Key.{Key}
use optics.Key.Text.{IsValid, text, join, join_nil, push-text, pop-push}
use optics.Lens.Histo
use optics.Lens.Float.{Float}
use optics.Poller.Values.{Value, counter, gauge, dist, histo, quantile, Poll, blank}
use optics.Poller.Names.{blank-IsValid}
use optics.Poller.Normalize.{
  Callback, decimal, bucket_samples, rescale, dist_parts, histo_parts, emit, normalize_value,
  normalize,
}

module _ (F : Float) where
  open F use {D, of_nat, of_int}

  -- a suffix as part of the name of a value
  abbrev named : Text → Text × D → Text × D
  named name s = (take 255 (join (take 255 name) s.0), s.1)

  -- the name of a part of a value: the key of the poll, cut to 255 bytes, a dot unless that is empty,
  -- and the suffix, cut again
  abbrev pub part : Poll F → Text → Text
  part poll suffix = take 255 (join (take 255 poll.key) suffix)

  -- a number over the time since the last poll
  abbrev pub per_second : Poll F → D → D
  per_second poll d = F.div d (of_nat poll.elapsed)

  -- the bucket between bound `i` and the next
  abbrev pub bucket_sample : Poll F → Histo.Value → ℕ → Text × D
  bucket_sample poll v i = (
    part poll (
        take 255 (
          bytes "bucket_"
          ++ (decimal (get_or v.buckets i 0)
              ++ (bytes "_" ++ decimal (get_or v.buckets (i + 1) 0))))),
    per_second poll (of_nat (get_or v.totals.counts i 0)),
  )

  -- What a value is reported as: its name alone, or with a suffix for each part of it.
  unfoldable pub samples : Poll F → Value F → List (Text × D)
  samples poll (counter v) = (poll.key, per_second poll (of_int v)) ∷ []
  samples poll (gauge v) = (poll.key, v) ∷ []
  samples poll (dist v) =
      (part poll (bytes "count"), per_second poll (of_nat v.n))
      ∷ (part poll (bytes "p50"), v.p50)
      ∷ (part poll (bytes "p90"), v.p90)
      ∷ (part poll (bytes "p99"), v.p99)
      ∷ (part poll (bytes "max"), v.max)
      ∷ []
  samples poll (histo v) =
      (part poll (bytes "below"), per_second poll (of_nat v.totals.below))
      ∷ (part poll (bytes "above"), per_second poll (of_nat v.totals.above))
      ∷ map (bucket_sample poll v) (seq 0 (v.buckets_len - 1))
  samples poll (quantile v) = (poll.key, v.sample) ∷ []

  named_buckets :
      (n : ℕ) (poll : Poll F) (v : Histo.Value) (i : ℕ)
      → map (named poll.key) (bucket_samples F n poll v i) ≡ map (bucket_sample poll v) (seq i n)
  unfolding bucket_samples rescale
  named_buckets zero poll v i = refl
  named_buckets (suc n) poll v i =
      ap (λ t. bucket_sample poll v i ∷ t) (named_buckets n poll v (i + 1))

  named_histo :
      (poll : Poll F) (v : Histo.Value)
      → map (named poll.key) (histo_parts F poll v) ≡ samples poll (histo v)
  unfolding samples rescale
  named_histo poll v =
      ap
        (λ t.
          (part poll (bytes "below"), per_second poll (of_nat v.totals.below))
          ∷ (part poll (bytes "above"), per_second poll (of_nat v.totals.above))
          ∷ t)
        (named_buckets (v.buckets_len - 1) poll v 0)

  module _ {C : Type 0} (cb : Callback F C) where
    -- The calls of the callback on a row of samples, up to the first that returns false.
    unfoldable pub report : ℕ → List (Text × D) → C → Run (C × Bool)
    report ts [] c = ok (c, true)
    report ts (s ∷ ss) c = cb c ts s.0 s.1 >>= λ r.
        (let rest = report ts ss r.0 in if r.1 then rest else ok (r.0, false))

    emit-report :
        (name : Text) (ts : ℕ) (ss : List (Text × D)) {key : Key} (c : C)
        → IsValid key
        → text key ≡ take 255 name
        → emit F cb key ts ss c ≡ report ts (map (named name) ss) c
    unfolding emit report
    emit-report name ts [] c v is = refl
    emit-report name ts (s ∷ ss) {key} c v is =
        let (k1, pushed, v1, t1) = push-text s.0 v in
        let (k2, popped, v2, t2) = pop-push s.0 v pushed in
        let said : text k1 ≡ take 255 (join (take 255 name) s.0) =
          t1 ∙ ap (λ t. take 255 (join t s.0)) is in
        rw (pushed, said)
          (>>=-congr (cb c ts (take 255 (join (take 255 name) s.0)) s.1) _ _ (λ r called.
            rw popped (
              ap (λ (x : Run (C × Bool)). if r.1 then x else ok (r.0, false))
                (emit-report name ts ss r.0 v2 (t2 ∙ is)))))

    -- the key that every row begins with
    emit_key-report :
        (name : Text) (ts : ℕ) (ss : List (Text × D)) (c : C)
        → (Key.push blank name >>= λ pushed. emit F cb pushed.0 ts ss c)
          ≡ report ts (map (named name) ss) c
    emit_key-report name ts ss c =
        let (k1, pushed, v1, t1) = push-text name blank-IsValid in
        rw pushed (emit-report name ts ss c v1 (t1 ∙ ap (λ t. take 255 t) (join_nil name)))

    report_one : (ts : ℕ) (s : Text × D) (c : C) → cb c ts s.0 s.1 ≡ report ts (s ∷ []) c
    unfolding report
    report_one ts s c = go (cb c ts s.0 s.1)
      where
        go :
            (run : Run (C × Bool))
            → run ≡ (run >>= λ r. if r.1 then ok (r.0, true) else ok (r.0, false))
        go (ok (c, true)) = refl
        go (ok (c, false)) = refl
        go abort = refl

    -- The normalisation of a value, with bounds if it is a histogram, has no abort of its own: it
    -- calls the callback on the samples of the value in order, each with its number and under the
    -- name with its suffix, until a call returns false.
    pub normalize-report :
        (poll : Poll F) (c : C)
        → ((v : Histo.Value) → poll.value ≡ histo v → v.buckets_len ≢ 0)
        → normalize F cb poll c ≡ report poll.ts (samples poll poll.value) c
    unfolding normalize samples rescale
    normalize-report poll c bounded = go poll.value bounded
      where
        go :
            (value : Value F)
            → ((v : Histo.Value) → value ≡ histo v → v.buckets_len ≢ 0)
            → normalize_value F cb poll value c ≡ report poll.ts (samples poll value) c
        go (counter v) h = report_one poll.ts (poll.key, rescale F poll (of_int v)) c
        go (gauge v) h = report_one poll.ts (poll.key, v) c
        go (dist v) h = emit_key-report poll.key poll.ts (dist_parts F poll v) c
        go (histo v) h = rw (ne→not-== v.buckets_len 0 (h v refl)) (
            emit_key-report poll.key poll.ts (histo_parts F poll v) c
            ∙ ap (λ ss. report poll.ts ss c) (named_histo poll v))
        go (quantile v) h = report_one poll.ts (poll.key, v.sample) c
