-- ===== src/Lens/Dist/Samples.antt =====
-- src/lens_dist.c: the sample of an epoch, and the merge of two.
use optics.Base.{
  ℕ, zero, suc, ◌+◌, ◌-◌, ◌*◌, ◌^◌, ◌≤◌, ◌<◌, min, ◌≡◌, ◌≢◌, refl, sym, ap, subst, ◌∙◌, List, [],
  ◌∷◌, Bool, true, ltb, leb, ◌==◌, if◌then◌else◌, length, get_or, set, take, drop, replicate,
  copy_at, arith, length-set, length-take, length-copy_at, length-replicate, get_or-set_self,
  get_or-set_ne, get_or-copy_at, get_or-drop, take_before-copy_at, Bool-cases, inl, inr, ==_eq,
  not-==→ne, ltb→lt, not-ltb→le, leb→le, not-leb→lt,
}
use native.Mathlib.Nat.{mul-le-mul_left}
use optics.Lens.Float.{Float}
use optics.Lens.Counter.{word}
use optics.Lens.Dist.{
  Dist, observe, place, Draws, reservoir_len, percentile, replace, mix, sample, merge_into, merge,
}

get_or-take {ℓ} :
    {A : Type ℓ} (n : ℕ) (xs : List A) (i : ℕ) (d : A)
    → i < n
    → get_or (take n xs) i d ≡ get_or xs i d
get_or-take zero xs i d lt = absurd (omega arith)
get_or-take (suc n) [] i d lt = refl
get_or-take (suc n) (x ∷ xs) zero d lt = refl
get_or-take (suc n) (x ∷ xs) (suc i) d lt = get_or-take n xs i d (omega arith)

-- A percentile below 100 of a sample that is not empty is at an index inside it.
pub percentile-lt : (p n : ℕ) → p < 100 → 0 < n → percentile p n < n
unfolding percentile
percentile-lt p n small some_value =
    let le : n * p ≤ n * 99 = mul-le-mul_left n (omega arith) in omega (arith, le)

module _ (F : Float) (P : Float.D F → Type 0) where
  open F use {D, nil}

  -- The first `n` values of an array of 200 satisfy the predicate.
  pub record Filled (xs : List D) (n : ℕ) : Type 0 where
    pub size : length xs ≡ 200
    pub room : n ≤ 200
    pub each : (i : ℕ) → i < n → P (get_or xs i nil)

  Filled-set : {xs : List D} {n : ℕ} (j : ℕ) (v : D) → Filled xs n → P v → Filled (set xs j v) n
  Filled-set {xs} {n} j v f pv = record {
    size = length-set xs j v ∙ f.size;
    room = f.room;
    each = λ i lt. elim (Bool-cases (j == i)) [
      | inl here ↦
          rw (==_eq j i here) (rw (get_or-set_self xs i v nil (omega (arith, f.size, f.room))) pv)
      | inr other ↦ rw (get_or-set_ne xs j i v nil (not-==→ne j i other)) (f.each i lt)
    ];
  }

  replace-Filled :
      (index : ℕ → ℕ) (n : ℕ) {dst : List D} (from : List D) (i m : ℕ)
      → Filled dst m
      → ((k : ℕ) → i ≤ k → k < i + n → P (get_or from k nil))
      → Filled (replace F index n dst from i) m
  unfolding replace
  replace-Filled index zero from i m f ok_from = f
  replace-Filled index (suc n) {dst} from i m f ok_from =
      replace-Filled index n from (i + 1) m
        (elim (Bool-cases (ltb (index i) 200)) [
          | inl inside ↦
              rw inside (Filled-set (index i) _ f (ok_from i (omega arith) (omega arith)))
          | inr outside ↦ rw outside f
        ])
        (λ k ge lt. ok_from k (omega arith) (omega arith))

  mix-Filled :
      (hit : ℕ → Bool) (n : ℕ) {dst : List D} (from : List D) (i m : ℕ)
      → Filled dst m
      → ((k : ℕ) → i ≤ k → k < i + n → P (get_or from k nil))
      → Filled (mix F hit n dst from i) m
  unfolding mix
  mix-Filled hit zero from i m f ok_from = f
  mix-Filled hit (suc n) {dst} from i m f ok_from =
      mix-Filled hit n from (i + 1) m
        (elim (Bool-cases (hit i)) [
          | inl drawn ↦ rw drawn (Filled-set i _ f (ok_from i (omega arith) (omega arith)))
          | inr missed ↦ rw missed f
        ])
        (λ k ge lt. ok_from k (omega arith) (omega arith))

  -- values copied behind the first `n`
  Filled-copy :
      {xs : List D} {n : ℕ} (m : ℕ) (from : List D)
      → Filled xs n
      → Filled from m
      → (k : ℕ) → k ≤ m
      → n + k ≤ 200
      → Filled (copy_at xs n (take k from)) (n + k)
  Filled-copy {xs} {n} m from f g k le room =
      let len : length (take k from) ≡ k = omega (arith, length-take k from, g.size, g.room) in
      record {
        size = length-copy_at xs n (take k from) (omega (arith, len, f.size)) ∙ f.size;
        room = room;
        each = λ i lt. elim (Bool-cases (ltb i n)) [
          | inl old ↦
              let lt' = ltb→lt i n old in
              let e = take_before-copy_at xs n (take k from) (omega (arith, f.size)) in
              subst P
                (sym (get_or-take n xs i nil lt')
                  ∙ ap (λ l. get_or l i nil) (sym e)
                  ∙ get_or-take n (copy_at xs n (take k from)) i nil lt')
                (f.each i lt')
          | inr new ↦
              let ge = not-ltb→le i n new in
              let d : n + (i - n) ≡ i = omega (arith, ge) in
              let e =
                get_or-copy_at xs n (i - n) (take k from) nil (omega (arith, f.size))
                  (omega (arith, len, ge, lt)) in
              subst P
                (sym (e ∙ get_or-take k from (i - n) nil (omega (arith, ge, lt)))
                  ∙ ap (λ j. get_or (copy_at xs n (take k from)) j nil) d)
                (g.each (i - n) (omega (arith, ge, lt)))
        ];
      }

  -- A merge step of a longer side, which is copied already, and a shorter one.
  sample-Filled :
      (draws : Draws) {dst : List D} (from : List D) (n : ℕ)
      → Filled dst 200
      → ((k : ℕ) → k < min n 200 → P (get_or from k nil))
      → Filled (sample F draws dst from n).0 200
  unfolding sample
  sample-Filled draws from n f ok_from = elim (Bool-cases (leb n 200)) [
    | inl few ↦ rw few (
        replace-Filled draws.index n from 0 200 f
          (λ k ge lt. ok_from k (omega (arith, lt, leb→le n 200 few))))
    | inr many ↦ rw many (
        mix-Filled draws.hit 200 from 0 200 f
          (λ k ge lt. ok_from k (omega (arith, lt, not-leb→lt n 200 many))))
  ]

  sample-len : (draws : Draws) (dst from : List D) (n : ℕ) → (sample F draws dst from n).1 ≡ 200
  unfolding sample
  sample-len draws dst from n = refl

  Filled-sample :
      (draws : Draws) {dst : List D} (from : List D) (n : ℕ)
      → Filled dst 200
      → ((k : ℕ) → k < min n 200 → P (get_or from k nil))
      → Filled (sample F draws dst from n).0 (sample F draws dst from n).1
  Filled-sample draws {dst} from n f ok_from =
      rw (sample-len draws dst from n) (sample-Filled draws from n f ok_from)

  -- the values that are merged, and how many there are
  pub record Merged (n : ℕ) (out : List D × ℕ) : Type 0 where
    pub filled : Filled out.0 out.1
    pub many : out.1 ≡ min 200 n

  merge_into-Merged :
      (draws : Draws) {dst from : List D} (n m : ℕ)
      → m ≤ n
      → Filled dst (min 200 n)
      → Filled from (min 200 m)
      → Merged (n + m) (merge_into F draws dst n from m)
  unfolding merge_into reservoir_len
  merge_into-Merged draws {dst} {from} n m le f g = elim (Bool-cases (m == 0)) [
    | inl none_left ↦
        let e : (if ltb 200 n then 200 else n) ≡ min 200 n = ground arith in
        let z : m ≡ 0 = ==_eq m 0 none_left in
        rw none_left (record { filled = rw e f; many = e ∙ omega (arith, z) })
    | inr some_left ↦ elim (Bool-cases (ltb n 200)) [
      | inr full ↦
          let ge = not-ltb→le n 200 full in
          let e : min 200 n ≡ 200 = omega (arith, ge) in
          rw (some_left, full)
            (record {
              filled =
                  Filled-sample draws from m (subst (λ k. Filled dst k) e f)
                    (λ k lt. g.each k (omega (arith, lt)));
              many = sample-len draws dst from m ∙ omega (arith, ge);
            })
      | inl room ↦
          let lt = ltb→lt n 200 room in
          let c = min (200 - n) m in
          let e : min 200 n ≡ n = omega (arith, lt) in
          let copied =
            Filled-copy (min 200 m) from (subst (λ k. Filled dst k) e f) g c (omega (arith, lt, le))
              (omega (arith, lt)) in
          elim (Bool-cases (m - c == 0)) [
            | inl all ↦
                let z : m - c ≡ 0 = ==_eq (m - c) 0 all in
                rw (some_left, room, all) (record { filled = copied; many = omega (arith, z, lt) })
            | inr more ↦
                let nz : m - c ≢ 0 = not-==→ne (m - c) 0 more in
                let e' : n + c ≡ 200 = omega (arith, nz, lt) in
                let dst' = copy_at dst n (take c from) in
                rw (some_left, room, more)
                  (record {
                    filled =
                        Filled-sample draws (drop c from) (m - c)
                          (subst (λ k. Filled dst' k) e' copied)
                          (λ k below.
                            rw (get_or-drop c from k nil)
                              (g.each (c + k) (omega (arith, below, lt, le))));
                    many = sample-len draws dst' (drop c from) (m - c) ∙ omega (arith, e', lt);
                  })
          ]
    ]
  ]

  -- the array that a merge starts with
  copied-Filled :
      {xs : List D} (n : ℕ)
      → Filled xs (min 200 n)
      → Filled (copy_at (replicate 200 nil) 0 (take (reservoir_len n) xs)) (min 200 n)
  unfolding reservoir_len
  copied-Filled {xs} n f =
      let e : (if ltb 200 n then 200 else n) ≡ min 200 n = ground arith in
      let blank : Filled (replicate 200 nil) 0 = record {
        size = length-replicate 200 nil;
        room = omega arith;
        each = λ i lt. absurd (omega (arith, lt));
      } in
      rw e (
        subst (λ k. Filled (copy_at (replicate 200 nil) 0 (take (min 200 n) xs)) k) (omega arith)
          (Filled-copy (min 200 n) xs blank f (min 200 n) (omega arith) (omega arith)))

  -- A merge of two samples fills as many values as both stand for, 200 at most, and each is a value
  -- of one of the two, whatever the random generator draws: what holds of all values of both
  -- samples holds of the result.
  pub merge-Merged :
      (draws : Draws) {lhs rhs : List D} (n m : ℕ)
      → Filled lhs (min 200 n)
      → Filled rhs (min 200 m)
      → Merged (n + m) (merge F draws lhs n rhs m)
  unfolding merge
  merge-Merged draws {lhs} {rhs} n m f g = elim (Bool-cases (leb m n)) [
    | inl ge ↦ rw ge (merge_into-Merged draws n m (leb→le m n ge) (copied-Filled n f) g)
    | inr lt ↦
        let le = not-leb→lt m n lt in
        let comm : m + n ≡ n + m = omega arith in
        rw lt (
          subst
            (λ k. Merged k (
              merge_into F draws (copy_at (replicate 200 nil) 0 (take (reservoir_len m) rhs)) m lhs
                n))
            comm (merge_into-Merged draws m n (omega (arith, le)) (copied-Filled m g) f))
  ]

  Filled-next :
      {xs : List D} {n : ℕ} (v : D) → n < 200 → Filled xs n → P v → Filled (set xs n v) (n + 1)
  Filled-next {xs} {n} v room f pv = record {
    size = length-set xs n v ∙ f.size;
    room = omega (arith, room);
    each = λ i lt. elim (Bool-cases (n == i)) [
      | inl here ↦
          rw (==_eq n i here)
            (rw (get_or-set_self xs i v nil (omega (arith, f.size, room, ==_eq n i here))) pv)
      | inr other ↦
          let ne = not-==→ne n i other in
          rw (get_or-set_ne xs n i v nil ne) (f.each i (omega (arith, lt, ne)))
    ];
  }

  -- A value that is recorded, while the count of the epoch does not wrap, fills the next place of
  -- the sample if there is one, and otherwise at most replaces a value: what holds of the value and
  -- of the sample holds of the sample after it.
  pub observe-Filled :
      (d : Dist F) (r : ℕ) (v : D)
      → d.n + 1 < 2 ^ 64
      → Filled d.samples (min 200 d.n)
      → P v
      → Filled (observe F d r v).samples (min 200 (observe F d r v).n)
  unfolding observe place
  observe-Filled d r v small f pv =
      let w : word (d.n + 1) ≡ d.n + 1 = omega (arith, small) in
      elim (Bool-cases (leb 200 d.n)) [
        | inl full ↦
            let ge = leb→le 200 d.n full in
            let e : min 200 d.n ≡ min 200 (d.n + 1) = omega (arith, ge) in
            elim (Bool-cases (ltb r 200)) [
              | inl inside ↦
                  rw (full, inside, w)
                    (subst (λ k. Filled (set d.samples r v) k) e (Filled-set r v f pv))
              | inr outside ↦ rw (full, outside, w) (subst (λ k. Filled d.samples k) e f)
            ]
        | inr open_place ↦
            let lt = not-leb→lt 200 d.n open_place in
            let inside : ltb d.n 200 ≡ true = ground (arith, lt) in
            let e : min 200 d.n ≡ d.n = omega (arith, lt) in
            let e' : d.n + 1 ≡ min 200 (d.n + 1) = omega (arith, lt) in
            rw (open_place, inside, w)
              (subst (λ k. Filled (set d.samples d.n v) k) e'
                (Filled-next v lt (subst (λ k. Filled d.samples k) e f) pv))
      ]
