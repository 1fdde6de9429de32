-- ===== src/Htable/Ops.antt =====
-- src/utils/htable.c: the operations against the map that a search of the whole table reads.
use optics.Base.{ℕ, zero, suc, ◌*◌, ◌%◌, ◌^◌, ◌≡◌, inl, inr, none, some, arith, Text, Option-cases}
use optics.Htable.{
  Htable, Ret, missing, hash, probe_vacant, resize, get, xchg, del, put, search_key,
}
use optics.Htable.Probe.{probe_put-found}
use optics.Htable.Resize.{IsValid, Resized, resize-Resized}
use optics.Htable.Cases.{
  Op, after_resize, deleted, exchanged, forget, got, insert, inserted, keep, kept, missed, put_ret,
  replace, ret_of, searched_none, some_lem,
}

-- the resize that every operation begins with
grew_lem :
    {ht ht' : Htable} (fuel : ℕ) → IsValid ht → resize fuel ht 8 ≡ some ht' → Resized ht 8 ht'
grew_lem fuel v = resize-Resized fuel 8 v (omega arith)

module _ {ht : Htable} (fuel : ℕ) (v : IsValid ht) (key : Text) {out : Htable × Ret} where
  -- On a valid table, a get that returns reports what a search of the whole table finds, and
  -- changes no lookup, although a probe looks at eight buckets only.
  pub get-Does : get fuel ht key ≡ some out → Op ht key keep ret_of out
  unfolding get
  get-Does e = elim (Option-cases (resize fuel ht 8)) [
    | inl stuck ↦ let bad : none ≡ some out = rw (stuck, get) at e in cc
    | inr (ht', grew) ↦
        let s : Resized ht 8 ht' = grew_lem fuel v grew in
        after_resize key keep ret_of s (elim (Option-cases (search_key ht' key)) [
          | inl miss ↦
              some_lem (Op ht' key keep ret_of) (rw (grew, miss, get) at e)
                (rw (searched_none s.valid key miss) (missed s.valid key missing miss))
          | inr (j, hit) ↦
              some_lem (Op ht' key keep ret_of) (rw (grew, hit, get) at e) (got s.valid key j hit)
        ])
  ]

  -- On a valid table, an exchange that returns writes a key that is there and leaves an absent one
  -- absent, changes nothing else, and reports the value that the key had.
  pub xchg-Does :
      (value : ℕ) → xchg fuel ht key value ≡ some out → Op ht key (replace value) ret_of out
  unfolding xchg
  xchg-Does value e = elim (Option-cases (resize fuel ht 8)) [
    | inl stuck ↦ let bad : none ≡ some out = rw (stuck, xchg) at e in cc
    | inr (ht', grew) ↦
        let s : Resized ht 8 ht' = grew_lem fuel v grew in
        after_resize key (replace value) ret_of s (elim (Option-cases (search_key ht' key)) [
          | inl miss ↦
              some_lem (Op ht' key (replace value) ret_of) (rw (grew, miss, xchg) at e)
                (rw (searched_none s.valid key miss) (missed s.valid key missing miss))
          | inr (j, hit) ↦
              some_lem (Op ht' key (replace value) ret_of) (rw (grew, hit, xchg) at e)
                (exchanged s.valid key value j hit)
        ])
  ]

  -- On a valid table, a delete that returns forgets the key and nothing else, and reports the value
  -- that the key had; the table stays valid and its count right.
  pub del-Does : del fuel ht key ≡ some out → Op ht key forget ret_of out
  unfolding del
  del-Does e = elim (Option-cases (resize fuel ht 8)) [
    | inl stuck ↦ let bad : none ≡ some out = rw (stuck, del) at e in cc
    | inr (ht', grew) ↦
        let s : Resized ht 8 ht' = grew_lem fuel v grew in
        after_resize key forget ret_of s (elim (Option-cases (search_key ht' key)) [
          | inl miss ↦
              some_lem (Op ht' key forget ret_of) (rw (grew, miss, del) at e)
                (rw (searched_none s.valid key miss) (missed s.valid key missing miss))
          | inr (j, hit) ↦
              some_lem (Op ht' key forget ret_of) (rw (grew, hit, del) at e)
                (deleted s.valid key j hit)
        ])
  ]

-- On a valid table, a put that returns stores the value under an absent key and leaves a present
-- key alone, changes no other lookup, counts right, and reports which of the two it was; the table
-- is valid after any number of times that it grows.
pub put-Does :
    (fuel : ℕ) {ht : Htable} (key : Text) (value : ℕ) {out : Htable × Ret}
    → IsValid ht
    → put fuel ht key value ≡ some out
    → Op ht key (insert value) put_ret out
unfolding put
put-Does zero key value v e = cc
put-Does (suc fuel) {ht} key value {out} v e = elim (Option-cases (resize (suc fuel) ht 8)) [
  | inl stuck ↦ let bad : none ≡ some out = rw (stuck, put) at e in cc
  | inr (ht', grew) ↦
      let s : Resized ht 8 ht' = grew_lem (suc fuel) v grew in
      let t = ht'.table in
      let h = hash key in
      let walk = probe_put-found t ht'.cap h 8 0 key none in
      after_resize key (insert value) put_ret s (elim (Option-cases (search_key ht' key)) [
        | inr (j, hit) ↦
            some_lem (Op ht' key (insert value) put_ret) (rw (grew, walk, hit, put) at e)
              (kept s.valid key value j hit)
        | inl miss ↦ elim (Option-cases (probe_vacant 8 t ht'.cap h 0)) [
          | inr (j, hole) ↦
              some_lem (Op ht' key (insert value) put_ret) (rw (grew, walk, miss, hole, put) at e)
                (inserted s.valid key value j (omega (arith, s.roomy)) miss hole)
          | inl no_room ↦
              let n = ht'.cap * 2 % 2 ^ 64 in
              elim (Option-cases (resize (suc fuel) ht' n)) [
                | inl stuck ↦
                    let bad : none ≡ some out = rw (grew, walk, miss, no_room, stuck, put) at e in
                    cc
                | inr (ht2, more) ↦
                    let rest : put fuel ht2 key value ≡ some out =
                      rw (grew, walk, miss, no_room, more, put) at e in
                    let s2 : Resized ht' n ht2 =
                      resize-Resized (suc fuel) n s.valid (omega (arith, s.valid.small)) more in
                    after_resize key (insert value) put_ret s2
                      (put-Does fuel key value s2.valid rest)
              ]
        ]
      ])
]
