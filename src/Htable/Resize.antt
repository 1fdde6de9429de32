-- ===== src/Htable/Resize.antt =====
-- src/utils/htable.c: `htable_resize` against the lookups of a table.
use optics.Base.{
  ℕ, zero, suc, ◌≢◌, false≢true, ◌+◌, ◌*◌, ◌%◌, ◌^◌, ◌≤◌, ◌<◌, ◌≡◌, refl, sym, ap, ◌∙◌, inl, inr,
  true, List, [], ◌∷◌, Option, none, some, arith, Text, set, length, replicate, length-replicate,
  get_or-replicate, if◌then◌else◌, Bool-cases, Option-cases, double_until_lem, leb, ◌==◌, not-==→ne,
  leb→le,
}
use optics.Htable.{
  Bucket, vacant, Htable, reset, hash, has, is_vacant, bucket, slot, probe_vacant, table_put,
  rehash, grown, allocates, resize,
}
use optics.Htable.Probe.{InWindow, slot-lt, probe_vacant-some}
use optics.Htable.Table.{
  to_nat, same, same_refl, has-vacant, lookup, count, used, lookup-eq-none, count-eq-zero,
  count-set, used-set, IsPlaced,
}
use optics.Htable.Write.{set-stored}

abbrev pub or_else : Option ℕ → Option ℕ → Option ℕ
or_else none o = o
or_else (some v) o = some v

-- `table_put` stores an absent key in a vacant bucket of its window.
record Stored (cap : ℕ) (t : List Bucket) (k : Text) (v : ℕ) (t' : List Bucket) : Type 0 where
  placed : IsPlaced cap t'
  reads : (q : Text) → lookup q t' ≡ (if same k q then some v else lookup q t)
  counts : (q : Text) → count q t' ≡ count q t + to_nat (same k q)
  uses : used t' ≡ used t + 1

store :
    {cap : ℕ} {t : List Bucket} (k : Text) (v j : ℕ)
    → IsPlaced cap t
    → count k t ≡ 0
    → j < length t
    → is_vacant (bucket t j) ≡ true
    → InWindow (hash k) cap j
    → Stored cap t k v (set t j (record { key = some k; value = v }))
store {cap} {t} k v j p absent lt free w =
    let b : Bucket = record { key = some k; value = v } in
    let (placed, reads) = set-stored p k j b lt (λ q. refl) (inr (free, absent, w)) in
    record {
      placed = placed;
      reads = reads;
      counts = λ q. omega (arith, count-set b q t j lt, ap to_nat (has-vacant q (bucket t j) free));
      uses = omega (arith, used-set b t j lt, ap (λ x. let z : ℕ = if x then 0 else 1 in z) free);
    }

table_put-Stored :
    {cap : ℕ} {t t' : List Bucket} (k : Text) (v : ℕ)
    → IsPlaced cap t
    → 0 < cap
    → count k t ≡ 0
    → table_put t cap k v ≡ some t'
    → Stored cap t k v t'
unfolding table_put
table_put-Stored {cap} {t} {t'} k v p pos absent e =
    elim (Option-cases (probe_vacant 8 t cap (hash k) 0)) [
      | inl full ↦ let bad : none ≡ some t' = rw (full, table_put) at e in cc
      | inr (j, at) ↦
          let done : some (set t j (record { key = some k; value = v })) ≡ some t' =
            rw (at, table_put) at e in
          let (d, dlt, here, free) = probe_vacant-some t cap (hash k) 8 0 at in
          let w : slot (hash k) d cap ≡ j = ap (λ i. slot (hash k) i cap) (omega arith) ∙ here in
          let lt : j < length t = omega (arith, slot-lt (hash k) d cap pos, p.width) in
          let t'' = set t j (record { key = some k; value = v }) in
          let same_table : t'' ≡ t' = cc in
          rw (← same_table) (store k v j p absent lt free (d, dlt, w))
    ]

replicate-IsPlaced : (n : ℕ) → IsPlaced n (replicate n vacant)
replicate-IsPlaced n =
    let empty = λ (q : Text) (j : ℕ). ap (has q) (get_or-replicate n j vacant) in
    record {
      width = length-replicate n vacant;
      unique = λ q. omega (arith, count-eq-zero q (replicate n vacant) (empty q));
      placed = λ q j h. absurd (false≢true (sym (empty q j) ∙ h));
    }

nothing : (q : Text) (n : ℕ) → count q (replicate n vacant) ≡ 0
nothing q n = count-eq-zero q (replicate n vacant) (λ j. ap (has q) (get_or-replicate n j vacant))

pub used-replicate : (n : ℕ) → used (replicate n vacant) ≡ 0
unfolding used
used-replicate zero = refl
used-replicate (suc n) = omega (arith, used-replicate n)

-- The loop over the old buckets moves what they hold, keeps the order of insertion out of every
-- lookup, and counts the buckets.
record Moved (cap : ℕ) (t es t' : List Bucket) : Type 0 where
  placed : IsPlaced cap t'
  reads : (q : Text) → lookup q t' ≡ or_else (lookup q t) (lookup q es)
  uses : used t' ≡ used t + used es

or_else-none : (o : Option ℕ) → or_else o none ≡ o
or_else-none none = refl
or_else-none (some v) = refl

rehash-Moved :
    {cap : ℕ} (es : List Bucket) {t t' : List Bucket}
    → 0 < cap
    → IsPlaced cap t
    → ((q : Text) → count q t + count q es ≤ 1)
    → rehash es t cap ≡ some t'
    → Moved cap t es t'
unfolding rehash lookup count used
rehash-Moved {cap} [] {t} {t'} pos p few e =
    let same_table : t ≡ t' = cc in
    rw (← same_table)
      (record { placed = p; reads = λ q. sym (or_else-none (lookup q t)); uses = omega arith })
rehash-Moved {cap} (b ∷ es) {t} {t'} pos p few e = elim (Option-cases b.key) [
  | inl empty ↦
      let free : is_vacant b ≡ true = rw empty in
      let rest : rehash es t cap ≡ some t' = rw (empty, rehash) at e in
      let m : Moved cap t es t' =
        rehash-Moved es pos p (λ q. omega (arith, few q, ap to_nat (has-vacant q b free))) rest in
      record {
        placed = m.placed;
        reads = λ q. m.reads q ∙ ap (or_else (lookup q t)) (rw (has-vacant q b free));
        uses = rw free (omega (arith, m.uses));
      }
  | inr (k, at) ↦
      let is : (q : Text) → has q b ≡ same k q = λ q. rw at in
      let one : (q : Text) → to_nat (has q b) ≡ to_nat (same k q) = λ q. ap to_nat (is q) in
      let absent : count k t ≡ 0 = omega (arith, few k, ap to_nat (is k ∙ same_refl k)) in
      elim (Option-cases (table_put t cap k b.value)) [
        | inl full ↦ let bad : none ≡ some t' = rw (at, rehash, full) at e in cc
        | inr (t1, put) ↦
            let rest : rehash es t1 cap ≡ some t' = rw (at, rehash, put) at e in
            let s : Stored cap t k b.value t1 = table_put-Stored k b.value p pos absent put in
            let m : Moved cap t1 es t' =
              rehash-Moved es pos s.placed (λ q. omega (arith, few q, s.counts q, one q)) rest in
            record {
              placed = m.placed;
              reads = λ q.
                  m.reads q
                  ∙ ap (λ o. or_else o (lookup q es)) (s.reads q)
                  ∙ elim (Bool-cases (same k q)) [
                    | inl eq ↦
                        let z : count q t ≡ 0 = omega (arith, few q, ap to_nat (is q ∙ eq)) in
                        rw (eq, lookup-eq-none q t z, is q ∙ eq)
                    | inr ne ↦ rw (ne, is q ∙ ne)
                  ];
              uses = rw at (omega (arith, m.uses, s.uses));
            }
      ]
]

-- The table's fields agree with its array.
pub record IsValid (ht : Htable) : Type 0 where
  pub array : IsPlaced ht.cap ht.table
  pub counted : ht.len ≡ used ht.table
  pub small : ht.cap * 16 < 2 ^ 63

-- The table that a reset leaves is valid.
pub reset-IsValid : IsValid reset
unfolding count used
reset-IsValid = record {
  array = record {
    width = refl;
    unique = λ q. omega arith;
    placed = λ q j h. absurd (false≢true h);
  };
  counted = refl;
  small = omega arith;
}

-- what a table reads under each key
abbrev pub view : Htable → Text → Option ℕ
view ht q = lookup q ht.table

-- what a resize to `cap` keeps and provides
pub record Resized (ht : Htable) (cap : ℕ) (ht' : Htable) : Type 0 where
  pub valid : IsValid ht'
  pub same_view : (q : Text) → view ht' q ≡ view ht q
  pub same_len : ht'.len ≡ ht.len
  pub roomy : cap ≤ ht'.cap

grown-ge : (old cap : ℕ) → cap ≤ 2 ^ 63 → cap ≤ grown old cap
unfolding grown
grown-ge old cap small = elim (Bool-cases (old == 0)) [
  | inl e ↦ let d = double_until_lem 64 cap 1 (omega arith) small (omega arith) in rw e d.reached
  | inr e ↦
      let pos : old ≢ 0 = not-==→ne _ _ e in
      let d = double_until_lem 64 cap old (omega arith) small (omega arith) in rw e d.reached
]

allocates-lt : (n : ℕ) → allocates n ≡ true → (0 < n) × (n * 16 < 2 ^ 63)
unfolding allocates
allocates-lt n h = ground arith

replaced :
    {ht : Htable} {n : ℕ} {t : List Bucket}
    → IsValid ht
    → 0 < n
    → n * 16 < 2 ^ 63
    → rehash ht.table (replicate n vacant) n ≡ some t
    → Resized ht n (record ht { cap = n; table = t })
replaced {ht} {n} {t} v pos few e =
    let m : Moved n (replicate n vacant) ht.table t =
      rehash-Moved ht.table pos (replicate-IsPlaced n)
        (λ q. omega (arith, nothing q n, v.array.unique q)) e in
    record {
      valid = record {
        array = m.placed;
        counted = omega (arith, v.counted, m.uses, used-replicate n);
        small = few;
      };
      same_view = λ q.
          m.reads q
          ∙ ap (λ o. or_else o (view ht q)) (lookup-eq-none q (replicate n vacant) (nothing q n));
      same_len = refl;
      roomy = omega arith;
    }

-- On a valid table, a resize to at most 2^63 buckets that returns keeps every lookup and the count,
-- and gives a valid table of at least the capacity that was asked for.
pub resize-Resized :
    (fuel : ℕ) {ht ht' : Htable} (cap : ℕ)
    → IsValid ht
    → cap ≤ 2 ^ 63
    → resize fuel ht cap ≡ some ht'
    → Resized ht cap ht'
unfolding resize
resize-Resized zero cap v small e = cc
resize-Resized (suc fuel) {ht} {ht'} cap v small e = elim (Bool-cases (leb cap ht.cap)) [
  | inl enough ↦
      let same_ht : ht ≡ ht' = ground arith in
      rw (← same_ht)
        (record { valid = v; same_view = λ q. refl; same_len = refl; roomy = leb→le _ _ enough })
  | inr short ↦ elim (Bool-cases (allocates (grown ht.cap cap))) [
    | inr no_memory ↦ let bad : none ≡ some ht' = rw (short, no_memory, resize) at e in cc
    | inl memory ↦
        let n = grown ht.cap cap in
        let (pos, few) = allocates-lt n memory in
        let enough : cap ≤ n = grown-ge ht.cap cap small in
        elim (Option-cases (rehash ht.table (replicate n vacant) n)) [
          | inl full ↦
              let again : resize fuel ht (n * 2 % 2 ^ 64) ≡ some ht' =
                rw (short, memory, full, resize) at e in
              let no_wrap : n * 2 % 2 ^ 64 ≡ n * 2 = omega arith in
              let r : Resized ht (n * 2) ht' =
                resize-Resized fuel (n * 2) v (omega arith) (rw no_wrap at again) in
              record {
                valid = r.valid;
                same_view = r.same_view;
                same_len = r.same_len;
                roomy = omega (arith, r.roomy);
              }
          | inr (t, moved) ↦
              let done : some (record ht { cap = n; table = t }) ≡ some ht' =
                rw (short, memory, moved, resize) at e in
              let ht1 : Htable = record ht { cap = n; table = t } in
              let same_ht : ht1 ≡ ht' = cc in
              let r : Resized ht n ht1 = replaced v pos few moved in
              rw (← same_ht) (record {
                valid = r.valid;
                same_view = r.same_view;
                same_len = refl;
                roomy = enough;
              })
        ]
  ]
]
