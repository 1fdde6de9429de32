-- ===== src/Htable/Room.antt =====
-- src/utils/htable.c: where the operations return.
use optics.Base.{
  ℕ, zero, suc, ◌+◌, ◌*◌, ◌^◌, ◌≤◌, ◌<◌, ◌≡◌, ◌≢◌, refl, sym, ◌∙◌, ◌⊎◌, inl, inr, true, false, List,
  [], ◌∷◌, none, some, arith, Text, set, length, length-set, replicate, length-replicate,
  get_or-set_ne, if◌then◌else◌, Bool-cases, Option-cases, IsPow2, mod-mod_pow2, add-mod_injective,
  double_until-IsPow2, double_until_lem, ◌==◌, leb, not-==→ne, not-leb→lt,
}
use optics.Htable.{
  Bucket, vacant, Htable, Ret, hash, is_vacant, bucket, slot, probe_vacant, table_put, rehash,
  grown, allocates, resize, put, get, search_key,
}
use optics.Htable.Probe.{slot-lt, probe_vacant-some, probe_put-found}
use optics.Htable.Table.{used, used-set}
use optics.Htable.Resize.{used-replicate, IsValid, resize-Resized, Resized}

module _ {cap : ℕ} (pow : IsPow2 cap) (wide : 8 ≤ cap) where
  -- the eight buckets of a window are eight buckets
  slot-injective : (h a b : ℕ) → a < 8 → b < 8 → slot h a cap ≡ slot h b cap → a ≡ b
  unfolding slot
  slot-injective h a b ha hb e =
      add-mod_injective h a b cap (omega arith) (omega arith)
        (sym (mod-mod_pow2 (h + a) cap pow) ∙ e ∙ mod-mod_pow2 (h + b) cap pow)

  probe_vacant-set :
      (n i j h : ℕ) (t : List Bucket) (b : Bucket)
      → ((d : ℕ) → d < n → slot h (i + d) cap ≢ j)
      → probe_vacant n (set t j b) cap h i ≡ probe_vacant n t cap h i
  unfolding probe_vacant
  probe_vacant-set zero i j h t b away = refl
  probe_vacant-set (suc n) i j h t b away =
      let z : i + 0 ≡ i = omega arith in
      let ne : slot h i cap ≢ j = rw z at (away 0 (omega arith)) in
      let rest = probe_vacant-set n (i + 1) j h t b (λ d lt.
        let e : i + suc d ≡ i + 1 + d = omega arith in rw e at (away (suc d) (omega arith))) in
      rw (get_or-set_ne t j (slot h i cap) b vacant (λ e. ne (sym e)), rest)

  -- A window with no vacant bucket takes that many of the buckets in use.
  full_window :
      (n i h : ℕ) (t : List Bucket)
      → length t ≡ cap
      → i + n ≤ 8
      → probe_vacant n t cap h i ≡ none
      → n ≤ used t
  unfolding probe_vacant
  full_window zero i h t size le e = omega arith
  full_window (suc n) i h t size le e =
      let j = slot h i cap in
      let busy : is_vacant (bucket t j) ≡ false = ground arith in
      let rest : probe_vacant n t cap h (i + 1) ≡ none = ground arith in
      let lt : j < length t = omega (arith, slot-lt h i cap (omega arith), size) in
      let away = λ (d : ℕ) (dlt : d < n) (hit : slot h (i + 1 + d) cap ≡ j).
        absurd (omega (arith, slot-injective h (i + 1 + d) i (omega arith) (omega arith) hit)) in
      let less : n ≤ used (set t j vacant) =
        full_window n (i + 1) h (set t j vacant) (length-set t j vacant ∙ size) (omega arith)
          (probe_vacant-set n (i + 1) j h t vacant away ∙ rest) in
      let one : (let w : ℕ = if is_vacant (bucket t j) then 0 else 1 in w) ≡ 1 = rw busy in
      omega (arith, less, used-set vacant t j lt, one)

  has_room :
      (h : ℕ) (t : List Bucket)
      → length t ≡ cap
      → used t ≤ 7
      → (j : ℕ) × (probe_vacant 8 t cap h 0 ≡ some j)
  has_room h t size few = elim (Option-cases (probe_vacant 8 t cap h 0)) [
    | inl full ↦ absurd (omega (arith, full_window 8 0 h t size (omega arith) full))
    | inr found ↦ found
  ]

  rehash-returns :
      (es t : List Bucket)
      → length t ≡ cap
      → used t + used es ≤ 8
      → (r : List Bucket) × (rehash es t cap ≡ some r)
  unfolding rehash table_put used
  rehash-returns [] t size few = (t, refl)
  rehash-returns (b ∷ es) t size few = elim (Option-cases b.key) [
    | inl empty ↦ let (r, run) = rehash-returns es t size (omega arith) in (r, rw empty run)
    | inr (k, at) ↦
        let one : (let w : ℕ = if is_vacant b then 0 else 1 in w) ≡ 1 = rw at in
        let (j, hole) = has_room (hash k) t size (omega (arith, few, one)) in
        let (d, dlt, here, free) = probe_vacant-some t cap (hash k) 8 0 hole in
        let lt : j < length t =
          omega (arith, slot-lt (hash k) (0 + d) cap (omega arith), here, size) in
        let b' : Bucket = record { key = some k; value = b.value } in
        let zero' : (let w : ℕ = if is_vacant (bucket t j) then 0 else 1 in w) ≡ 0 = rw free in
        let (r, run) =
          rehash-returns es (set t j b') (length-set t j b' ∙ size)
            (omega (arith, few, one, used-set b' t j lt, zero')) in
        (r, rw (at, hole) run)
  ]

-- the capacities that the table itself makes
abbrev pub Grows : ℕ → Type 0
Grows n = (n ≡ 0) ⊎ IsPow2 n

grown-bounds :
    (old cap : ℕ)
    → Grows old
    → old < cap
    → 8 ≤ cap
    → cap ≤ 2 ^ 58
    → IsPow2 (grown old cap) × (cap ≤ grown old cap) × (grown old cap < 2 * cap)
unfolding grown
grown-bounds old cap g lt wide small = elim (Bool-cases (old == 0)) [
  | inl e ↦
      let d = double_until_lem 64 cap 1 (omega arith) (omega arith) (omega arith) in
      rw e
        (double_until-IsPow2 64 cap 1 (omega arith) (63, refl), d.reached, omega (arith, d.tight))
  | inr e ↦
      let ne : old ≢ 0 = not-==→ne _ _ e in
      let p : IsPow2 old = elim g [ inl z ↦ absurd (ne z) | inr p ↦ p ] in
      let d = double_until_lem 64 cap old (omega arith) (omega arith) (omega arith) in
      rw e (double_until-IsPow2 64 cap old (omega arith) p, d.reached, omega (arith, d.tight))
]

allocates-lem : (n : ℕ) → 0 < n → n < 2 ^ 59 → allocates n ≡ true
unfolding allocates
allocates-lem n pos lt = ground arith

-- A resize to between 8 and 2^58 buckets, of a table with a capacity that the table itself makes
-- and at most eight keys, returns with fuel for one call, with such a capacity.
pub resize-returns :
    (fuel : ℕ) (ht : Htable) (cap : ℕ)
    → Grows ht.cap
    → used ht.table ≤ 8
    → 8 ≤ cap
    → cap ≤ 2 ^ 58
    → (ht' : Htable) × (resize (suc fuel) ht cap ≡ some ht') × Grows ht'.cap
unfolding resize
resize-returns fuel ht cap g few wide small = elim (Bool-cases (leb cap ht.cap)) [
  | inl enough ↦ (ht, rw enough, g)
  | inr short ↦
      let n = grown ht.cap cap in
      let (pow, ge, lt) = grown-bounds ht.cap cap g (not-leb→lt _ _ short) wide small in
      let memory : allocates n ≡ true = allocates-lem n (omega arith) (omega arith) in
      let (t, moved) =
        rehash-returns pow (omega arith) ht.table (replicate n vacant) (length-replicate n vacant)
          (omega (arith, used-replicate n)) in
      (record ht { cap = n; table = t }, rw (short, memory, moved), inr pow)
]

some-not-none {ℓ} : {A : Type ℓ} {a : A} → some a ≡ none → ⊥
some-not-none e = cc

-- A put into a valid table of at most seven keys, with a capacity that the table itself makes,
-- returns with fuel for one call, whatever the hashes are.
pub put-returns :
    (fuel : ℕ) {ht : Htable} (key : Text) (value : ℕ)
    → IsValid ht
    → Grows ht.cap
    → ht.len ≤ 7
    → (out : Htable × Ret) × (put (suc fuel) ht key value ≡ some out)
unfolding put
put-returns fuel {ht} key value v g few =
    let (ht', grew, g') =
      resize-returns fuel ht 8 g (omega (arith, v.counted)) (omega arith) (omega arith) in
    let s : Resized ht 8 ht' = resize-Resized (suc fuel) 8 v (omega arith) grew in
    let pow : IsPow2 ht'.cap = elim g' [ inl z ↦ absurd (omega (arith, s.roomy)) | inr p ↦ p ] in
    let t = ht'.table in
    let walk = probe_put-found t ht'.cap (hash key) 8 0 key none in
    let (j, hole) =
      has_room pow s.roomy (hash key) t s.valid.array.width
        (omega (arith, s.valid.counted, s.same_len)) in
    elim (Option-cases (put (suc fuel) ht key value)) [
      | inr out ↦ out
      | inl stuck ↦ elim (Option-cases (search_key ht' key)) [
        | inl miss ↦ absurd (some-not-none (rw (grew, walk, miss, hole, put) at stuck))
        | inr (i, hit) ↦ absurd (some-not-none (rw (grew, walk, hit, put) at stuck))
      ]
    ]

-- A get on a valid table of at most eight keys, with a capacity that the table itself makes,
-- returns with fuel for one call.
pub get-returns :
    (fuel : ℕ) {ht : Htable} (key : Text)
    → IsValid ht
    → Grows ht.cap
    → ht.len ≤ 8
    → (out : Htable × Ret) × (get (suc fuel) ht key ≡ some out)
unfolding get
get-returns fuel {ht} key v g few =
    let (ht', grew, g') =
      resize-returns fuel ht 8 g (omega (arith, v.counted)) (omega arith) (omega arith) in
    elim (Option-cases (get (suc fuel) ht key)) [
      | inr out ↦ out
      | inl stuck ↦ elim (Option-cases (search_key ht' key)) [
        | inl miss ↦ absurd (some-not-none (rw (grew, miss, get) at stuck))
        | inr (i, hit) ↦ absurd (some-not-none (rw (grew, hit, get) at stuck))
      ]
    ]
