-- ===== src/Htable/Table.antt =====
-- What an array of buckets holds: lookup by a search of the whole array, which no hash guides, and
-- how a write to one bucket changes it.
use optics.Base.{
  ℕ, zero, suc, ◌+◌, ◌≤◌, ◌<◌, ◌≡◌, refl, ap, ◌⊎◌, inl, inr, ◌≢◌, Bool, true, false, List, [], ◌∷◌,
  Option, none, some, arith, Text, str_eq, str_eq_refl, str_eq_eq, str_eq_symm, take, set, length,
  get_or-set_self, get_or-set_ne, take-take_le, if◌then◌else◌, Bool-cases, ℕ_discrete,
}
use optics.Htable.{Bucket, vacant, key_max_len, hash, has, is_vacant, bucket, probe, slot}
use optics.Htable.Probe.{InWindow, probe-some, probe-none}

abbrev pub to_nat : Bool → ℕ
to_nat true = 1
to_nat false = 0

-- keys are compared up to their longest length
abbrev pub same : Text → Text → Bool
same a b = str_eq (take key_max_len a) (take key_max_len b)

unfoldable pub lookup : Text → List Bucket → Option ℕ
lookup q [] = none
lookup q (b ∷ t) = if has q b then some b.value else lookup q t

unfoldable pub count : Text → List Bucket → ℕ
count q [] = 0
count q (b ∷ t) = to_nat (has q b) + count q t

-- the buckets with a key
unfoldable pub used : List Bucket → ℕ
used [] = 0
used (b ∷ t) = (if is_vacant b then 0 else 1) + used t

pub same_refl : (a : Text) → same a a ≡ true
same_refl a = str_eq_refl _

pub same_symm : (a b : Text) → same a b ≡ same b a
same_symm a b = str_eq_symm _ _

-- Two keys that are the same have the same hash, so the same window.
pub hash-same : (a b : Text) → same a b ≡ true → hash a ≡ hash b
unfolding hash
hash-same a b h = rw (str_eq_eq _ _ h)

pub has-same : (k q : Text) (b : Bucket) → has k b ≡ true → has q b ≡ same k q
has-same k q b h = go b.key h
  where
    go :
        (o : Option Text)
        → elim o [ none ↦ false | some x ↦ str_eq (take key_max_len x) (take key_max_len k) ] ≡ true
        → elim o [ none ↦ false | some x ↦ str_eq (take key_max_len x) (take key_max_len q) ]
          ≡ same k q
    go none e = cc
    go (some x) e = rw (str_eq_eq _ _ e)

-- the bucket that a put writes
pub has-stored :
    (k q : Text) (v : ℕ) → has q (record { key = some (take key_max_len k); value = v }) ≡ same k q
has-stored k q v = rw (take-take_le key_max_len key_max_len k (omega arith))

pub has_congr : (k q : Text) (b : Bucket) → same k q ≡ true → has k b ≡ has q b
has_congr k q b h =
    ap (λ c. elim b.key as (λ _. Bool) [ none ↦ false | some x ↦ str_eq (take key_max_len x) c ])
      (str_eq_eq _ _ h)

pub has-vacant : (q : Text) (b : Bucket) → is_vacant b ≡ true → has q b ≡ false
has-vacant q b h = ground arith

pub lookup-eq-none : (q : Text) (t : List Bucket) → count q t ≡ 0 → lookup q t ≡ none
unfolding lookup count
lookup-eq-none q [] h = refl
lookup-eq-none q (b ∷ t) h = ground (arith, lookup-eq-none q t)

pub count-eq-zero :
    (q : Text) (t : List Bucket) → ((j : ℕ) → has q (bucket t j) ≡ false) → count q t ≡ 0
unfolding count
count-eq-zero q [] h = refl
count-eq-zero q (b ∷ t) h = ground (arith, h 0, count-eq-zero q t (λ j. h (suc j)))

pub count_congr : (k q : Text) (t : List Bucket) → same k q ≡ true → count k t ≡ count q t
unfolding count
count_congr k q [] h = refl
count_congr k q (b ∷ t) h = rw (has_congr k q b h, count_congr k q t h)

pub lookup_congr : (k q : Text) (t : List Bucket) → same k q ≡ true → lookup k t ≡ lookup q t
unfolding lookup
lookup_congr k q [] h = refl
lookup_congr k q (b ∷ t) h = rw (has_congr k q b h, lookup_congr k q t h)

pub count-pos : (q : Text) (t : List Bucket) (j : ℕ) → has q (bucket t j) ≡ true → 0 < count q t
unfolding count
count-pos q [] j h = cc
count-pos q (b ∷ t) zero h = ground arith
count-pos q (b ∷ t) (suc j) h = omega (arith, count-pos q t j h)

pub lookup-bucket :
    (q : Text) (t : List Bucket) (j : ℕ)
    → has q (bucket t j) ≡ true
    → count q t ≤ 1
    → lookup q t ≡ some (bucket t j).value
unfolding lookup count
lookup-bucket q [] j h few = cc
lookup-bucket q (b ∷ t) zero h few = ground arith
lookup-bucket q (b ∷ t) (suc j) h few = ground (arith, lookup-bucket q t j h, count-pos q t j h)

pub bucket-in : (q : Text) (t : List Bucket) (j : ℕ) → has q (bucket t j) ≡ true → j < length t
bucket-in q [] j h = cc
bucket-in q (b ∷ t) zero h = omega arith
bucket-in q (b ∷ t) (suc j) h = omega (arith, bucket-in q t j h)

module _ (b : Bucket) where
  pub count-set :
      (q : Text) (t : List Bucket) (j : ℕ)
      → j < length t
      → count q (set t j b) + to_nat (has q (bucket t j)) ≡ count q t + to_nat (has q b)
  unfolding count
  count-set q [] j h = absurd (omega arith)
  count-set q (c ∷ t) zero h = omega arith
  count-set q (c ∷ t) (suc j) h = omega (arith, count-set q t j (omega arith))

  pub lookup-set_other :
      (q : Text) (t : List Bucket) (j : ℕ)
      → has q (bucket t j) ≡ false
      → has q b ≡ false
      → lookup q (set t j b) ≡ lookup q t
  unfolding lookup
  lookup-set_other q [] j h k = refl
  lookup-set_other q (c ∷ t) zero h k = ground arith
  lookup-set_other q (c ∷ t) (suc j) h k = ground (arith, lookup-set_other q t j h k)

  pub used-set :
      (t : List Bucket) (j : ℕ)
      → j < length t
      → used (set t j b) + (if is_vacant (bucket t j) then 0 else 1)
        ≡ used t + (if is_vacant b then 0 else 1)
  unfolding used
  used-set [] j h = absurd (omega arith)
  used-set (c ∷ t) zero h = omega arith
  used-set (c ∷ t) (suc j) h = omega (arith, used-set t j (omega arith))

pub bucket-set :
    (t : List Bucket) (i j : ℕ) (b : Bucket)
    → i < length t
    → ((i ≡ j) × (bucket (set t i b) j ≡ b)) ⊎ ((i ≢ j) × (bucket (set t i b) j ≡ bucket t j))
bucket-set t i j b h = elim (ℕ_discrete i j) [
  | yes e ↦ inl (e, rw (← e) (get_or-set_self t i b vacant h))
  | no ne ↦ inr (ne, get_or-set_ne t i j b vacant ne)
]

-- A key occurs once at most, and in its window: the invariant of an array of `cap` buckets.
pub record IsPlaced (cap : ℕ) (t : List Bucket) : Type 0 where
  pub width : length t ≡ cap
  pub unique : (q : Text) → count q t ≤ 1
  pub placed : (q : Text) (j : ℕ) → has q (bucket t j) ≡ true → InWindow (hash q) cap j

-- A probe that fails means that the key is nowhere in the array.
pub probe-absent :
    {cap : ℕ} {t : List Bucket} (key : Text)
    → IsPlaced cap t
    → probe 8 t cap (hash key) 0 key ≡ none
    → count key t ≡ 0
probe-absent {cap} {t} key p e = count-eq-zero key t λ j. elim (Bool-cases (has key (bucket t j))) [
  | inr miss ↦ miss
  | inl hit ↦
      let (i, lt, at) = p.placed key j hit in
      let z : 0 + i ≡ i = omega arith in
      let miss = probe-none t cap (hash key) 8 0 key e i lt in
      let miss' : has key (bucket t (slot (hash key) i cap)) ≡ false = rw z at miss in
      rw at at miss'
]

-- A probe finds what the search of the whole array finds.
pub probe-lookup :
    {cap : ℕ} {t : List Bucket} (key : Text) (j : ℕ)
    → IsPlaced cap t
    → probe 8 t cap (hash key) 0 key ≡ some j
    → (has key (bucket t j) ≡ true) × (j < length t) × (lookup key t ≡ some (bucket t j).value)
probe-lookup {cap} {t} key j p e =
    let (d, lt, at, hit) = probe-some t cap (hash key) 8 0 key {j = j} e in
    (hit, bucket-in key t j hit, lookup-bucket key t j hit (p.unique key))
