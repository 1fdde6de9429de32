-- ===== src/Htable/Next.antt =====
-- src/utils/htable.c: a walk of the buckets by `htable_next`.
use optics.Base.{
  ℕ, zero, suc, ◌+◌, ◌-◌, ◌≤◌, ◌<◌, ◌≡◌, refl, sym, ◌∙◌, ap, inl, inr, List, [], ◌∷◌, Option, none,
  some, arith, drop, take, length, Text, str_eq_refl, true, false, All, All-map, if◌then◌else◌,
  Bool-cases, Option-cases,
}
use optics.Htable.{Bucket, Htable, bucket, is_vacant, has, key_max_len, scan, next}
use optics.Htable.Resize.{IsValid}
use optics.Htable.Table.{lookup, count, lookup-eq-none}

-- `for (it = htable_next(ht, NULL); it; it = htable_next(ht, it))` over the buckets from index `i`
unfoldable pub walk : ℕ → Htable → ℕ → List Bucket
walk zero ht i = []
walk (suc n) ht i = elim (next ht i) [ none ↦ [] | some j ↦ bucket ht.table j ∷ walk n ht (j + 1) ]

-- the buckets of the whole walk, which makes one round for each and one more
unfoldable pub entries : Htable → List Bucket
entries ht = walk (ht.cap + 1) ht 0

-- the buckets with a key, in the order of the array
unfoldable pub occupied : List Bucket → List Bucket
occupied [] = []
occupied (b ∷ t) = if is_vacant b then occupied t else b ∷ occupied t

drop-bucket : (t : List Bucket) (i : ℕ) → i < length t → drop i t ≡ bucket t i ∷ drop (i + 1) t
drop-bucket [] i lt = absurd (omega arith)
drop-bucket (b ∷ t) zero lt = refl
drop-bucket (b ∷ t) (suc i) lt =
    let e : suc i + 1 ≡ suc (i + 1) = omega arith in rw e (drop-bucket t i (omega arith))

drop_end : (t : List Bucket) (i : ℕ) → length t ≤ i → drop i t ≡ []
drop_end [] zero h = refl
drop_end [] (suc i) h = refl
drop_end (b ∷ t) zero h = absurd (omega arith)
drop_end (b ∷ t) (suc i) h = drop_end t i (omega arith)

-- what a scan from `i` tells of the buckets behind it
Scanned : List Bucket → ℕ → Option ℕ → Type 0
Scanned t i none = occupied (drop i t) ≡ []
Scanned t i (some j) =
    (i ≤ j) × (j < length t) × (occupied (drop i t) ≡ bucket t j ∷ occupied (drop (j + 1) t))

scan-Scanned : (n : ℕ) (t : List Bucket) (i : ℕ) → n ≡ length t - i → Scanned t i (scan n t i)
unfolding Scanned scan occupied
scan-Scanned zero t i e = rw (drop_end t i (omega arith))
scan-Scanned (suc n) t i e =
    let step = drop-bucket t i (omega arith) in
    let rest : Scanned t (i + 1) (scan n t (i + 1)) = scan-Scanned n t (i + 1) (omega arith) in
    elim (Bool-cases (is_vacant (bucket t i))) [
      | inr full ↦ rw full (omega arith, omega arith, rw (step, occupied, full))
      | inl hole ↦ rw hole (go (scan n t (i + 1)) (rw (step, occupied, hole)) rest)
    ]
  where
    go :
        (o : Option ℕ)
        → occupied (drop i t) ≡ occupied (drop (i + 1) t)
        → Scanned t (i + 1) o
        → Scanned t i o
    go none same h = same ∙ h
    go (some j) same (le, lt, h) = (omega arith, lt, same ∙ h)

walk-occupied :
    (n : ℕ) (ht : Htable) (i : ℕ)
    → length ht.table ≡ ht.cap
    → ht.cap - i < n
    → walk n ht i ≡ occupied (drop i ht.table)
unfolding walk next Scanned
walk-occupied zero ht i width lt = absurd (omega arith)
walk-occupied (suc n) ht i width lt =
    let seen = scan-Scanned (ht.cap - i) ht.table i (omega arith) in
    elim (Option-cases (next ht i)) [
      | inl e ↦ rw (e, walk) (sym (rw e at seen))
      | inr (j, e) ↦
          let (le, below, h) : Scanned ht.table i (some j) = rw e at seen in
          rw (e, walk)
            (ap (λ t. bucket ht.table j ∷ t) (walk-occupied n ht (j + 1) width (omega arith))
              ∙ sym h)
    ]

-- On a valid table, the walk by htable_next visits each bucket with a key once, in the order of the
-- array, and ends.
pub entries-occupied : (ht : Htable) → IsValid ht → entries ht ≡ occupied ht.table
unfolding entries
entries-occupied ht v = walk-occupied (ht.cap + 1) ht 0 v.array.width (omega arith)

-- A search of the array finds the value under some key.
abbrev pub Stored : List Bucket → ℕ → Type 0
Stored t v = (q : Text) × (lookup q t ≡ some v)

Stored-cons :
    (b : Bucket) (t : List Bucket)
    → ((q : Text) → count q (b ∷ t) ≤ 1)
    → (v : ℕ) → Stored t v
    → Stored (b ∷ t) v
unfolding lookup count
Stored-cons b t few v (q, h) = elim (Bool-cases (has q b)) [
  | inr other ↦ (q, rw other h)
  | inl here ↦
      let once : count q (b ∷ t) ≤ 1 = few q in
      let none_left : count q t ≡ 0 = ground arith in let lost = lookup-eq-none q t none_left in cc
]

Stored-head : (b : Bucket) (t : List Bucket) → is_vacant b ≡ false → Stored (b ∷ t) b.value
unfolding lookup
Stored-head b t full = elim (Option-cases b.key) [
  | inl e ↦ absurd (ground arith)
  | inr (x, e) ↦ let here : has x b ≡ true = rw e (str_eq_refl (take key_max_len x)) in (x, rw here)
]

-- Where no key is twice, every bucket of the walk is found under its key.
pub occupied-Stored :
    (t : List Bucket)
    → ((q : Text) → count q t ≤ 1)
    → All (λ (b : Bucket). Stored t b.value) (occupied t)
unfolding occupied count
occupied-Stored [] few = tt
occupied-Stored (b ∷ t) few =
    let rest : All (λ (c : Bucket). Stored (b ∷ t) c.value) (occupied t) =
      All-map (λ (c : Bucket). Stored t c.value) (λ (c : Bucket). Stored (b ∷ t) c.value)
        (occupied t) (λ c. Stored-cons b t few c.value)
        (occupied-Stored t (λ q. omega (arith, few q))) in
    elim (Bool-cases (is_vacant b)) [
      | inl hole ↦ rw hole rest
      | inr full ↦ rw full (Stored-head b t full, rest)
    ]
