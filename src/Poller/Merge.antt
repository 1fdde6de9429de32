-- ===== src/Poller/Merge.antt =====
-- src/poller_poll.c: the values of a poll as a map from keys to polls, and what a lens adds to it.
use optics.Base.{
  ℕ, ◌<◌, ◌≡◌, ◌≢◌, refl, sym, ap, subst, ◌∙◌, inl, inr, true, false, false≢true, List, [], ◌∷◌,
  ◌++◌, Option, none, some, Text, length, set, get_elem?, if◌then◌else◌, ok, abort, >>=-eq-ok,
  ok_inj, Bool-cases, Option-cases, length-set, length-append, get_elem?-set_self, get_elem?-set_ne,
  get_elem?-append_lt, get_elem?-append_end, get_elem?-some,
}
use optics.Htable
use optics.Htable.{Htable, Ret}
use optics.Htable.Table.{same, same_refl, lookup_congr}
use optics.Htable.Resize
use optics.Htable.Resize.{view}
use optics.Htable.Cases.{unchanged, ret_of, put_ret, insert}
use optics.Htable.Ops.{get-Does, put-Does}
use optics.Htable.Owned.{Owned, choose, reads_new, reads_old, Owned-new, Owned-same}
use optics.Lens.Float.{Float}
use optics.Optics.{Header, at}
use optics.Poller.Values.{
  Poll, Values, Context, Chance, Cells, first, lengthen, update, get_value, read, read_into,
  poll_lens, build_key,
}

module _ (F : Float) where
  -- The pointers of the table lead to polls, each to its own.
  abbrev pub IsValid : Values F → Type 0
  IsValid vals = Owned vals.table (length vals.polls)

  abbrev pub at_pointer : List (Poll F) → Option ℕ → Option (Poll F)
  at_pointer polls none = none
  at_pointer polls (some p) = get_elem? polls p

  -- the poll of a key
  abbrev pub poll_of : Values F → Text → Option (Poll F)
  poll_of vals q = at_pointer vals.polls (view vals.table q)

  length-update :
      (f : Poll F → Poll F) (polls : List (Poll F)) (p : ℕ)
      → length (update F f polls p) ≡ length polls
  unfolding update
  length-update f polls p = elim (Option-cases (get_elem? polls p)) [
    | inl e ↦ rw (e, update)
    | inr (x, e) ↦ rw (e, update) (length-set polls p (f x))
  ]

  update_self :
      (f : Poll F → Poll F) (polls : List (Poll F)) (p : ℕ) {x : Poll F}
      → p < length polls
      → get_elem? polls p ≡ some x
      → get_elem? (update F f polls p) p ≡ some (f x)
  unfolding update
  update_self f polls p {x} lt e = rw (e, update) (get_elem?-set_self polls p (f x) lt)

  update-ne :
      (f : Poll F → Poll F) (polls : List (Poll F)) (p i : ℕ)
      → p ≢ i
      → get_elem? (update F f polls p) i ≡ get_elem? polls i
  unfolding update
  update-ne f polls p i ne = elim (Option-cases (get_elem? polls p)) [
    | inl e ↦ rw (e, update)
    | inr (x, e) ↦ rw (e, update) (get_elem?-set_ne polls p i (f x) ne)
  ]

  -- the poll that a key has before its lens is read
  abbrev pub prepared : Context F → Header → Option (Poll F) → Poll F
  prepared ctx l none = first F ctx l
  prepared ctx l (some poll) = lengthen F ctx.elapsed poll

  -- A value that a key gets: a pointer to it, and what it is.
  record Got (ctx : Context F) (vals : Values F) (l : Header) (key : Text) (vals' : Values F)
      (p : ℕ) : Type 0 where
    valid : IsValid vals'
    here : view vals'.table key ≡ some p
    now : get_elem? vals'.polls p ≡ some (prepared ctx l (poll_of vals key))
    others : (q : Text) → same key q ≡ false → poll_of vals' q ≡ poll_of vals q

  -- a key that is there
  old_value :
      (ctx : Context F) (vals : Values F) (l : Header) (key : Text) (table : Htable) (p : ℕ)
      → IsValid vals
      → Owned table (length vals.polls)
      → ((q : Text) → view table q ≡ view vals.table q)
      → view vals.table key ≡ some p
      → Got ctx vals l key
          (record { table = table; polls = update F (lengthen F ctx.elapsed) vals.polls p })
          p
  old_value ctx vals l key table p v valid reads at =
      let f = lengthen F ctx.elapsed in
      let lt : p < length vals.polls = v.owned key p at in
      let (x, is) = get_elem?-some vals.polls p lt in
      let there : poll_of vals key ≡ some x = ap (at_pointer vals.polls) at ∙ is in
      record {
        valid = subst (Owned table) (sym (length-update f vals.polls p)) valid;
        here = reads key ∙ at;
        now = update_self f vals.polls p lt is ∙ ap (λ o. some (prepared ctx l o)) (sym there);
        others = λ q ne.
            ap (at_pointer (update F f vals.polls p)) (reads q)
            ∙ elim (Option-cases (view vals.table q)) [
              | inl nothing ↦ rw nothing
              | inr (i, e) ↦
                  let apart : p ≢ i =
                    λ same_p. false≢true (sym ne ∙ v.apart key q p at (e ∙ ap some (sym same_p))) in
                  rw e (update-ne f vals.polls p i apart)
            ];
      }

  -- a key that is new
  new_value :
      (ctx : Context F) (vals : Values F) (l : Header) (key : Text) (table : Htable)
      → IsValid vals
      → Resize.IsValid table
      → ((q : Text)
          → view table q ≡ (if same key q then some (length vals.polls) else view vals.table q))
      → view vals.table key ≡ none
      → Got ctx vals l key
          (record { table = table; polls = vals.polls ++ (first F ctx l ∷ []) })
          (length vals.polls)
  new_value ctx vals l key table v valid reads absent =
      let longer = vals.polls ++ (first F ctx l ∷ []) in
      record {
        valid =
            subst (Owned table) (sym (length-append vals.polls (first F ctx l ∷ [])))
              (Owned-new v key table valid reads);
        here = reads_new v key table valid reads key (same_refl key);
        now =
            get_elem?-append_end vals.polls (first F ctx l)
            ∙ ap (λ o. some (prepared ctx l (at_pointer vals.polls o))) (sym absent);
        others = λ q ne.
            ap (at_pointer longer) (reads_old v key table valid reads q ne)
            ∙ elim (Option-cases (view vals.table q)) [
              | inl nothing ↦ rw nothing
              | inr (i, e) ↦
                  rw e (get_elem?-append_lt vals.polls (first F ctx l ∷ []) i (v.owned q i e))
            ];
      }

  get_value-Got :
      (fuel : ℕ) (ctx : Context F) (vals : Values F) (l : Header) (key : Text) {vals' : Values F}
      {p : ℕ}
      → IsValid vals
      → get_value F fuel ctx vals l key ≡ ok (vals', p)
      → Got ctx vals l key vals' p
  unfolding get_value
  get_value-Got fuel ctx vals l key {vals'} {p} v run =
      elim (Option-cases (Htable.get fuel vals.table key)) [
        | inl stuck ↦ let bad : abort ≡ ok (vals', p) = rw (stuck, get_value) at run in cc
        | inr ((h1, r), got) ↦
            let d = get-Does fuel v.table key got in
            let reads : (q : Text) → view h1 q ≡ view vals.table q =
              λ q. d.reads q ∙ sym (unchanged vals.table key q) in
            elim (Option-cases (view vals.table key)) [
              | inr (i, at) ↦
                  let is : r ≡ ret_of (some i) = d.returns ∙ ap ret_of at in
                  let out : ok (
                    record { table = h1; polls = update F (lengthen F ctx.elapsed) vals.polls i },
                    i,
                  )
                      ≡ ok (vals', p) =
                    rw (got, is, get_value) at run in
                  let both = ok_inj out in
                  subst (λ (o : Values F × ℕ). Got ctx vals l key o.0 o.1) both
                    (old_value ctx vals l key h1 i v (Owned-same v d.valid reads) reads at)
              | inl absent ↦
                  let is : r ≡ ret_of none = d.returns ∙ ap ret_of absent in
                  let n = length vals.polls in
                  elim (Option-cases (Htable.put fuel h1 key n)) [
                    | inl stuck ↦
                        let bad : abort ≡ ok (vals', p) = rw (got, is, stuck, get_value) at run in
                        cc
                    | inr ((h2, r2), put) ↦
                        let d2 = put-Does fuel key n d.valid put in
                        let r2' : r2 ≡ record { found = true; value = 0 } =
                          d2.returns ∙ ap put_ret (reads key ∙ absent) in
                        let out : ok
                              (record { table = h2; polls = vals.polls ++ (first F ctx l ∷ []) }, n)
                            ≡ ok (vals', p) =
                          rw (got, is, put, r2', get_value) at run in
                        subst (λ (o : Values F × ℕ). Got ctx vals l key o.0 o.1) (ok_inj out)
                          (new_value ctx vals l key h2 v d2.valid
                            (λ q.
                              d2.reads q
                              ∙ choose key q (ap (insert n) (reads key ∙ absent)) (reads q))
                            absent)
                  ]
            ]
      ]

  -- a poll with the value that a lens has added to
  abbrev pub merged : Chance F → Context F → Cells F → Header → Poll F → Poll F
  merged c ctx cells l poll = record poll {
    value = (read F c l.off ctx.epoch (cells l.off) poll.value).1;
  }

  -- what a lens changes: the poll of its key, and its own cell
  pub record Merged (c : Chance F) (ctx : Context F) (cells : Cells F) (vals : Values F)
      (l : Header) (key : Text) (cells' : Cells F) (vals' : Values F) : Type 0 where
    pub valid : IsValid vals'
    pub reads :
        (q : Text)
        → poll_of vals' q ≡ (
            if same key q
            then some (merged c ctx cells l (prepared ctx l (poll_of vals key)))
            else poll_of vals q)
    pub taken :
        cells'
        ≡ at cells l.off
            (read F c l.off ctx.epoch (cells l.off) (prepared ctx l (poll_of vals key)).value).0

  -- the read into the poll that the key has got
  read_into-Merged :
      (c : Chance F) (ctx : Context F) (cells : Cells F) (vals : Values F) (l : Header) (key : Text)
      {vals1 : Values F} {p : ℕ} {cells' : Cells F} {vals' : Values F}
      → Got ctx vals l key vals1 p
      → read_into F c ctx.epoch l cells vals1 p ≡ ok (cells', vals')
      → Merged c ctx cells vals l key cells' vals'
  unfolding read_into
  read_into-Merged c ctx cells vals l key {vals1} {p} {cells'} {vals'} g run =
      let base = prepared ctx l (poll_of vals key) in
      let new = merged c ctx cells l base in
      let polls = set vals1.polls p new in
      let after : Values F = record vals1 { polls = polls } in
      let out : ok (at cells l.off (read F c l.off ctx.epoch (cells l.off) base.value).0, after)
          ≡ ok (cells', vals') =
        rw (g.now, read_into) at run in
      let lt : p < length vals1.polls = g.valid.owned key p g.here in
      let done : Merged c ctx cells vals l key
          (at cells l.off (read F c l.off ctx.epoch (cells l.off) base.value).0) after =
        record {
          valid = subst (Owned vals1.table) (sym (length-set vals1.polls p new)) g.valid;
          reads = λ q. elim (Bool-cases (same key q)) [
            | inl e ↦
                let at_q : view vals1.table q ≡ some p =
                  sym (lookup_congr key q vals1.table.table e) ∙ g.here in
                ap (at_pointer polls) at_q ∙ get_elem?-set_self vals1.polls p new lt ∙ rw e
            | inr ne ↦ elim (Option-cases (view vals1.table q)) [
              | inl nothing ↦
                  ap (at_pointer polls) nothing
                  ∙ sym (ap (at_pointer vals1.polls) nothing)
                  ∙ g.others q ne
                  ∙ rw ne
              | inr (i, e) ↦
                  let apart : p ≢ i = λ same_p.
                    false≢true (sym ne ∙ g.valid.apart key q p g.here (e ∙ ap some (sym same_p))) in
                  ap (at_pointer polls) e
                  ∙ get_elem?-set_ne vals1.polls p i new apart
                  ∙ sym (ap (at_pointer vals1.polls) e)
                  ∙ g.others q ne
                  ∙ rw ne
            ]
          ];
          taken = refl;
        } in
      subst (λ (o : Cells F × Values F). Merged c ctx cells vals l key o.0 o.1) (ok_inj out) done

  pub poll_lens-Merged :
      (fuel : ℕ) (c : Chance F) (ctx : Context F) (cells : Cells F) (vals : Values F) (l : Header)
      {cells' : Cells F} {vals' : Values F}
      → IsValid vals
      → poll_lens F fuel c ctx (cells, vals) l ≡ ok (cells', vals')
      → (key : Text) × (build_key ctx.prefix ctx.host l.name ≡ ok key)
        × Merged c ctx cells vals l key cells' vals'
  unfolding poll_lens
  poll_lens-Merged fuel c ctx cells vals l v run =
      let (key, built, run1) = >>=-eq-ok (build_key ctx.prefix ctx.host l.name) _ run in
      let ((vals1, p), got, run2) = >>=-eq-ok (get_value F fuel ctx vals l key) _ run1 in
      (
        key,
        built,
        read_into-Merged c ctx cells vals l key (get_value-Got fuel ctx vals l key v got) run2,
      )
