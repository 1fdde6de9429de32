-- ===== src/Htable/Write.antt =====
-- src/utils/htable.c: writes to one bucket, a stored key and a deleted key.
use optics.Base.{
  ℕ, ◌≤◌, ◌<◌, ◌≡◌, sym, ap, ◌∙◌, ◌⊎◌, inl, inr, true, false, List, none, some, arith, Text, set,
  length, length-set, if◌then◌else◌, Bool-cases, get_or-set_self, false≢true,
}
use optics.Htable.{Bucket, vacant, hash, has, is_vacant, bucket}
use optics.Htable.Probe.{InWindow}
use optics.Htable.Table.{
  to_nat, same, hash-same, has-same, has-vacant, count_congr, lookup, count, lookup-eq-none,
  count-pos, lookup-bucket, count-set, lookup-set_other, bucket-set, IsPlaced,
}

-- a write over the bucket of the key, or to a vacant bucket of its window while the key is absent
abbrev pub Fits : ℕ → List Bucket → Text → ℕ → Type 0
Fits cap t key j =
    (has key (bucket t j) ≡ true)
    ⊎ ((is_vacant (bucket t j) ≡ true) × (count key t ≡ 0) × InWindow (hash key) cap j)

absurd_of {ℓ} : {A : Type ℓ} → false ≡ true → A
absurd_of h = absurd (false≢true h)

module _ {cap : ℕ} {t : List Bucket} (p : IsPlaced cap t) (key : Text) (j : ℕ) where
  -- the bucket that is written holds the key or nothing
  abbrev Before : Text → Type 0
  Before q =
      (same key q ≡ false → has q (bucket t j) ≡ false)
      × (same key q ≡ true → count q t ≡ to_nat (has q (bucket t j)))

  before : Fits cap t key j → (q : Text) → Before q
  before (inl hit) q =
      let e : has q (bucket t j) ≡ same key q = has-same key q (bucket t j) hit in
      (
        λ h. e ∙ h,
        λ h.
            let yes' : has q (bucket t j) ≡ true = e ∙ h in
            rw yes' (omega (arith, p.unique q, count-pos q t j yes')),
      )
  before (inr (free, absent, w)) q =
      let e : has q (bucket t j) ≡ false = has-vacant q (bucket t j) free in
      (λ h. e, λ h. rw e (sym (count_congr key q t h) ∙ absent))

  window : Fits cap t key j → InWindow (hash key) cap j
  window (inl hit) = p.placed key j hit
  window (inr (free, absent, w)) = w

  module _ (b : Bucket) (lt : j < length t) where
    placed_after :
        (same_b : (q : Text) → has q b ≡ true → same key q ≡ true)
        → Fits cap t key j
        → (q : Text) (i : ℕ) → has q (bucket (set t j b) i) ≡ true
        → InWindow (hash q) cap i
    placed_after same_b fit q i h = elim (bucket-set t j i b lt) [
      | inl (e, at) ↦
          let hq : has q b ≡ true = ap (has q) (sym at) ∙ h in
          let (d, dlt, slots) = window fit in
          rw (← e, ← hash-same key q (same_b q hq)) (d, dlt, slots)
      | inr (ne, at) ↦ p.placed q i (ap (has q) (sym at) ∙ h)
    ]

    unique_after :
        ((q : Text) → has q b ≡ same key q)
        → Fits cap t key j
        → (q : Text) → count q (set t j b) ≤ 1
    unique_after stored fit q = elim (Bool-cases (same key q)) [
      | inl eq ↦ omega (arith, count-set b q t j lt, ap to_nat (stored q ∙ eq), (before fit q).1 eq)
      | inr ne ↦ omega (arith, count-set b q t j lt, ap to_nat (stored q ∙ ne), p.unique q)
    ]

    lookup_after :
        ((q : Text) → has q b ≡ same key q)
        → Fits cap t key j
        → (q : Text) → lookup q (set t j b) ≡ (if same key q then some b.value else lookup q t)
    lookup_after stored fit q = elim (Bool-cases (same key q)) [
      | inl eq ↦
          let self : bucket (set t j b) j ≡ b = get_or-set_self t j b vacant lt in
          rw eq (
            lookup-bucket q (set t j b) j (ap (has q) self ∙ stored q ∙ eq)
              (unique_after stored fit q)
            ∙ ap (λ (c : Bucket). some c.value) self)
      | inr ne ↦ rw ne (lookup-set_other b q t j ((before fit q).0 ne) (stored q ∙ ne))
    ]

    -- Storing keeps the invariant, and every lookup of the key gives the new value.
    pub set-stored :
        ((q : Text) → has q b ≡ same key q)
        → Fits cap t key j
        → IsPlaced cap (set t j b)
          × ((q : Text) → lookup q (set t j b) ≡ (if same key q then some b.value else lookup q t))
    set-stored stored fit = (
      record {
        width = length-set t j b ∙ p.width;
        unique = unique_after stored fit;
        placed = placed_after (λ q h. sym (stored q) ∙ h) fit;
      },
      lookup_after stored fit,
    )

    gone : ((q : Text) → has q b ≡ false) → (q : Text) → to_nat (has q b) ≡ 0
    gone empty q = ap to_nat (empty q)

    -- Deleting keeps the invariant, and no lookup finds the key any more.
    pub set-deleted :
        ((q : Text) → has q b ≡ false)
        → has key (bucket t j) ≡ true
        → IsPlaced cap (set t j b)
          × ((q : Text) → lookup q (set t j b) ≡ (if same key q then none else lookup q t))
    set-deleted empty hit = (
      record {
        width = length-set t j b ∙ p.width;
        unique = λ q. omega (arith, count-set b q t j lt, gone empty q, p.unique q);
        placed = placed_after (λ q h. absurd_of (sym (empty q) ∙ h)) (inl hit);
      },
      λ q. elim (Bool-cases (same key q)) [
        | inl eq ↦ rw eq (
            lookup-eq-none q (set t j b)
              (omega (arith, count-set b q t j lt, gone empty q, (before (inl hit) q).1 eq)))
        | inr ne ↦ rw ne (lookup-set_other b q t j ((before (inl hit) q).0 ne) (empty q))
      ],
    )
