-- ===== src/Htable/Cases.antt =====
-- src/utils/htable.c: an operation once its probe has ended.
use optics.Base.{
  ℕ, ◌+◌, ◌-◌, ◌<◌, ◌≡◌, refl, sym, ap, subst, ◌∙◌, inl, inr, Bool, true, false, take, Option, none,
  some, arith, Text, set, length, if◌then◌else◌, Bool-cases,
}
use optics.Htable.{
  Bucket, Htable, Ret, missing, hash, has, is_vacant, bucket, slot, probe_vacant, search_key,
}
use optics.Htable.Probe.{slot-lt, probe_vacant-some}
use optics.Htable.Table.{
  same, has-same, has-stored, lookup_congr, used, lookup-eq-none, used-set, probe-absent,
  probe-lookup,
}
use optics.Htable.Write.{set-stored, set-deleted}
use optics.Htable.Resize.{IsValid, view, Resized}

-- what the operations report of the value that a key has
abbrev pub ret_of : Option ℕ → Ret
ret_of none = missing
ret_of (some v) = record { found = true; value = v }

abbrev pub present : Option ℕ → ℕ
present none = 0
present (some v) = 1

abbrev pub keep : Option ℕ → Option ℕ
keep o = o

abbrev pub replace : ℕ → Option ℕ → Option ℕ
replace value none = none
replace value (some v) = some value

abbrev pub forget : Option ℕ → Option ℕ
forget o = none

abbrev pub insert : ℕ → Option ℕ → Option ℕ
insert value none = some value
insert value (some v) = some v

-- `htable_put` says whether it inserted, and gives the value that was there otherwise.
abbrev pub put_ret : Option ℕ → Ret
put_ret none = record { found = true; value = 0 }
put_ret (some v) = record { found = false; value = v }

-- An operation on `key` that leaves `after` under it and nothing else changed, and returns `r`.
pub record Does (ht : Htable) (key : Text) (after : Option ℕ) (r : Ret) (out : Htable × Ret)
    : Type 0 where
  pub valid : IsValid out.0
  pub reads : (q : Text) → view out.0 q ≡ (if same key q then after else view ht q)
  pub counts : out.0.len + present (view ht key) ≡ ht.len + present after
  pub returns : out.1 ≡ r

abbrev pub Op : Htable → Text → (Option ℕ → Option ℕ) → (Option ℕ → Ret) → Htable × Ret → Type 0
Op ht key after r out = Does ht key (after (view ht key)) (r (view ht key)) out

-- what is kept reads as before
pub unchanged :
    (ht : Htable) (key q : Text) → view ht q ≡ (if same key q then view ht key else view ht q)
unchanged ht key q = elim (Bool-cases (same key q)) [
  | inl eq ↦ rw eq (sym (lookup_congr key q ht.table eq))
  | inr ne ↦ rw ne
]

-- the view of the table before a resize carries over
pub after_resize :
    {ht ht' : Htable} {n : ℕ} (key : Text) (after : Option ℕ → Option ℕ) (r : Option ℕ → Ret)
    {out : Htable × Ret}
    → Resized ht n ht'
    → Does ht' key (after (view ht' key)) (r (view ht' key)) out
    → Does ht key (after (view ht key)) (r (view ht key)) out
after_resize {ht} {ht'} key after r s d =
    let e : view ht' key ≡ view ht key = s.same_view key in
    record {
      valid = d.valid;
      reads = λ q.
          d.reads q
          ∙ ap (λ x. if same key q then after (view ht' key) else x) (s.same_view q)
          ∙ ap (λ x. if same key q then after x else view ht q) e;
      counts = omega (arith, d.counts, s.same_len, ap present e, ap (λ x. present (after x)) e);
      returns = d.returns ∙ ap r e;
    }

pub some_lem {ℓ κ} : {A : Type ℓ} (P : A → Type κ) {a b : A} → some a ≡ some b → P a → P b
some_lem P e p = subst P (cc) p

occupied : (key : Text) (b : Bucket) → has key b ≡ true → is_vacant b ≡ false
occupied key b h = ground arith

abbrev weight : Bool → ℕ
weight x = if x then 0 else 1

module _ {ht : Htable} (v : IsValid ht) (key : Text) where
  -- what a search of a valid table tells of its view
  pub searched_none : search_key ht key ≡ none → view ht key ≡ none
  searched_none e = lookup-eq-none key ht.table (probe-absent key v.array e)

  pub got :
      (j : ℕ)
      → search_key ht key ≡ some j
      → Does ht key
          (view ht key)
          (ret_of (view ht key))
          (ht, record { found = true; value = (bucket ht.table j).value })
  got j e = record {
    valid = v;
    reads = unchanged ht key;
    counts = refl;
    returns = rw (probe-lookup key j v.array e).2;
  }

  pub missed : (r : Ret) → search_key ht key ≡ none → Does ht key none r (ht, r)
  missed r e = record {
    valid = v;
    reads =
        λ q. unchanged ht key q ∙ ap (λ x. if same key q then x else view ht q) (searched_none e);
    counts = omega (arith, ap present (searched_none e));
    returns = refl;
  }

  pub exchanged :
      (value j : ℕ)
      → search_key ht key ≡ some j
      → let b = bucket ht.table j in
        Op ht key (replace value) ret_of (
          record ht { table = set ht.table j (record b { value = value }) },
          record { found = true; value = b.value },
        )
  exchanged value j e =
      let b = bucket ht.table j in
      let b' : Bucket = record b { value = value } in
      let (hit, lt, at) = probe-lookup key j v.array e in
      let is : (q : Text) → has q b' ≡ same key q = λ q. has-same key q b hit in
      let (placed, reads) = set-stored v.array key j b' lt is (inl hit) in
      rw at (record {
        valid = record {
          array = placed;
          counted = omega (arith, v.counted, used-set b' ht.table j lt);
          small = v.small;
        };
        reads = reads;
        counts = rw at refl;
        returns = refl;
      })

  pub deleted :
      (j : ℕ)
      → search_key ht key ≡ some j
      → let b = bucket ht.table j in
        Op ht key forget ret_of (
          record ht { len = ht.len - 1; table = set ht.table j (record b { key = none }) },
          record { found = true; value = b.value },
        )
  deleted j e =
      let b = bucket ht.table j in
      let b' : Bucket = record b { key = none } in
      let (hit, lt, at) = probe-lookup key j v.array e in
      let (placed, reads) = set-deleted v.array key j b' lt (λ q. refl) hit in
      let there : weight (is_vacant b) ≡ 1 = rw (occupied key b hit) in
      let used' : used (set ht.table j b') + 1 ≡ used ht.table =
        omega (arith, used-set b' ht.table j lt, there) in
      record {
        valid = record {
          array = placed;
          counted = omega (arith, v.counted, used');
          small = v.small;
        };
        reads = reads;
        counts = rw at (omega (arith, v.counted, used'));
        returns = rw at refl;
      }

  -- a vacant bucket of the window, while the key is absent
  pub inserted :
      (value j : ℕ)
      → 0 < ht.cap
      → search_key ht key ≡ none
      → probe_vacant 8 ht.table ht.cap (hash key) 0 ≡ some j
      → let b : Bucket = record { key = some (take 1024 key); value = value } in
        Op ht key (insert value) put_ret (
          record ht { len = ht.len + 1; table = set ht.table j b },
          record { found = true; value = 0 },
        )
  inserted value j pos miss e =
      let b : Bucket = record { key = some (take 1024 key); value = value } in
      let (d, dlt, here, hole) = probe_vacant-some ht.table ht.cap (hash key) 8 0 e in
      let w : slot (hash key) d ht.cap ≡ j =
        ap (λ i. slot (hash key) i ht.cap) (omega arith) ∙ here in
      let lt : j < length ht.table =
        omega (arith, slot-lt (hash key) d ht.cap pos, v.array.width) in
      let absent = probe-absent key v.array miss in
      let (placed, reads) =
        set-stored v.array key j b lt (λ q. has-stored key q value)
          (inr (hole, absent, (d, dlt, w))) in
      let empty : weight (is_vacant (bucket ht.table j)) ≡ 0 = rw hole in
      rw (searched_none miss) (record {
        valid = record {
          array = placed;
          counted = omega (arith, v.counted, used-set b ht.table j lt, empty);
          small = v.small;
        };
        reads = reads;
        counts = rw (searched_none miss) (omega arith);
        returns = refl;
      })

  pub kept :
      (value j : ℕ)
      → search_key ht key ≡ some j
      → Op ht key
          (insert value)
          put_ret
          (ht, record { found = false; value = (bucket ht.table j).value })
  kept value j e =
      let (hit, lt, at) = probe-lookup key j v.array e in
      rw at (record {
        valid = v;
        reads = λ q. unchanged ht key q ∙ ap (λ x. if same key q then x else view ht q) at;
        counts = rw at refl;
        returns = refl;
      })
