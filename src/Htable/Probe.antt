-- ===== src/Htable/Probe.antt =====
-- src/utils/htable.c: the probes of a window.
use optics.Base.{
  ℕ, zero, suc, ◌+◌, ◌<◌, ◌≡◌, refl, ap, ◌∙◌, inl, inr, true, false, List, Option, none, some,
  arith, Text, Bool-cases,
}
use optics.Htable.{
  Bucket, Found, existing, free, full, slot, has, is_vacant, bucket, probe, probe_vacant, probe_put,
}

-- bucket `j` is in the window of a key with hash `h`
abbrev pub InWindow : ℕ → ℕ → ℕ → Type 0
InWindow h cap j = (i : ℕ) × (i < 8) × (slot h i cap ≡ j)

pub slot-lt : (h i cap : ℕ) → 0 < cap → slot h i cap < cap
unfolding slot
slot-lt h i cap p = omega arith

module _ (t : List Bucket) (cap h : ℕ) where
  -- A probe that succeeds names a bucket of the window that holds the key.
  pub probe-some :
      (n i : ℕ) (key : Text) {j : ℕ}
      → probe n t cap h i key ≡ some j
      → (d : ℕ) × (d < n) × (slot h (i + d) cap ≡ j) × (has key (bucket t j) ≡ true)
  unfolding probe
  probe-some zero i key e = cc
  probe-some (suc n) i key {j} e = elim (Bool-cases (has key (bucket t (slot h i cap)))) [
    | inl hit ↦
        let at : slot h i cap ≡ j = ground arith in
        (0, omega arith, ap (λ k. slot h k cap) (omega arith) ∙ at, rw (← at) hit)
    | inr miss ↦
        let (d, lt, at, hit) = probe-some n (i + 1) key {j = j} (ground arith) in
        (suc d, omega arith, ap (λ k. slot h k cap) (omega arith) ∙ at, hit)
  ]

  -- A probe that fails has seen every bucket of the window.
  pub probe-none :
      (n i : ℕ) (key : Text)
      → probe n t cap h i key ≡ none
      → (d : ℕ) → d < n
      → has key (bucket t (slot h (i + d) cap)) ≡ false
  unfolding probe
  probe-none zero i key e d lt = absurd (omega arith)
  probe-none (suc n) i key e zero lt = let here : i + 0 ≡ i = omega arith in rw here (ground arith)
  probe-none (suc n) i key e (suc d) lt =
      let there : i + suc d ≡ i + 1 + d = omega arith in
      rw there (probe-none n (i + 1) key (ground arith) d (omega arith))

  pub probe_vacant-some :
      (n i : ℕ) {j : ℕ}
      → probe_vacant n t cap h i ≡ some j
      → (d : ℕ) × (d < n) × (slot h (i + d) cap ≡ j) × (is_vacant (bucket t j) ≡ true)
  unfolding probe_vacant
  probe_vacant-some zero i e = cc
  probe_vacant-some (suc n) i {j} e = elim (Bool-cases (is_vacant (bucket t (slot h i cap)))) [
    | inl hit ↦
        let at : slot h i cap ≡ j = ground arith in
        (0, omega arith, ap (λ k. slot h k cap) (omega arith) ∙ at, rw (← at) hit)
    | inr miss ↦
        let (d, lt, at, hit) = probe_vacant-some n (i + 1) {j = j} (ground arith) in
        (suc d, omega arith, ap (λ k. slot h k cap) (omega arith) ∙ at, hit)
  ]

  -- what the loop of `htable_put` finds, by the two simpler loops
  abbrev pub found : Option ℕ → Option ℕ → Option ℕ → Found
  found (some j) empty later = existing j
  found none (some e) later = free e
  found none none (some j) = free j
  found none none none = full

  pub probe_put-found :
      (n i : ℕ) (key : Text) (empty : Option ℕ)
      → probe_put n t cap h i key empty
        ≡ found (probe n t cap h i key) empty (probe_vacant n t cap h i)
  unfolding probe_put probe probe_vacant
  probe_put-found zero i key none = refl
  probe_put-found zero i key (some e) = refl
  probe_put-found (suc n) i key none = ground (
    arith,
    probe_put-found n (i + 1) key none,
    probe_put-found n (i + 1) key (some (slot h i cap)),
  )
  probe_put-found (suc n) i key (some e) = ground (arith, probe_put-found n (i + 1) key (some e))
