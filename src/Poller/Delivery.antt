-- ===== src/Poller/Delivery.antt =====
-- src/poller_poll.c: what each back-end is told of a poll.
use optics.Base.{
  ℕ, ◌+◌, ◌<◌, length, All, All-map, get_elem?-some, ◌≡◌, refl, sym, ap, ap₂, append-nil,
  append_assoc, zero, suc, ◌==◌, subst, ◌∙◌, inl, inr, List, [], ◌∷◌, ◌++◌, map, some, Text,
  get_elem?, ltb, Run, ok, assert, >>=-eq-ok, ok_inj, not, Bool-cases,
}
use optics.Htable
use optics.Htable.{Bucket}
use optics.Htable.Next.{entries, occupied, entries-occupied, Stored, occupied-Stored}
use optics.Htable.Resize.{reset-IsValid}
use optics.Htable.Table.{lookup}
use optics.Lens.Float.{Float}
use optics.Optics.Space.{Allocator}
use optics.Optics.{
  Optics, Header, Status, optics_ok, optics_err, optics_busy, optics_break, foreach_from,
  foreach_lens, lens_ptr,
}
use optics.Poller.{Poller, Backend, Event, begin, metric, finish, call, backend_record}
use optics.Poller.Values.{Poll, Values, Context, Chance, Cells, poll_lens}
use optics.Poller.Merge.{IsValid, poll_lens-Merged}
use optics.Poller.Poll.{
  Item, visit_lens, poll_optics, poll_items, record_all, turn_epochs, poll_found, elapsed,
}

-- A walk over the lenses keeps what each call of the callback keeps.
module _ {ℓ κ} {S : Type 0} (A : Allocator S) {C : Type ℓ} (cb : C → Header → C × Status)
    (P : C → Type κ) (keep : (c : C) (l : Header) → P c → P (cb c l).0) where
  after_ret :
      (c : C) (ret : Status) (rest : Run (C × Status)) {out : C × Status}
      → P c
      → (rest ≡ ok out → P out.0)
      → elim ret as (λ _. Run (C × Status)) [
        | optics_ok ↦ rest
        | optics_err ↦ ok (c, optics_err)
        | optics_busy ↦ ok (c, optics_busy)
        | optics_break ↦ ok (c, optics_break)
      ]
        ≡ ok out
      → P out.0
  after_ret c optics_ok rest p more run = more run
  after_ret c optics_err rest p more run = subst (λ (o : C × Status). P o.0) (ok_inj run) p
  after_ret c optics_busy rest p more run = subst (λ (o : C × Status). P o.0) (ok_inj run) p
  after_ret c optics_break rest p more run = subst (λ (o : C × Status). P o.0) (ok_inj run) p

  foreach_from_keeps :
      (fuel : ℕ) (o : Optics S) (c : C) (off : ℕ) {out : C × Status}
      → P c
      → foreach_from A fuel o cb c off ≡ ok out
      → P out.0
  unfolding foreach_from
  foreach_from_keeps zero o c off p run = cc
  foreach_from_keeps (suc fuel) o c off {out} p run =
      let l = o.lenses off in
      let next = keep c l p in
      elim (Bool-cases (off == 0)) [
        | inl end ↦ subst (λ (o : C × Status). P o.0) (ok_inj (rw (end, foreach_from) at run)) p
        | inr more ↦ elim (Bool-cases (not (lens_ptr A o off))) [
          | inl lost ↦
              subst (λ (o : C × Status). P o.0) (ok_inj (rw (more, lost, foreach_from) at run)) p
          | inr there ↦
              after_ret (cb c l).0 (cb c l).1 (foreach_from A fuel o cb (cb c l).0 l.next) next
                (foreach_from_keeps fuel o (cb c l).0 l.next next)
                (rw (more, there, foreach_from) at run)
        ]
      ]

-- a back-end after a row of events
module _ {P C : Type 0} where
  pub deliver : List (Event P) → Backend P C → Backend P C
  deliver [] b = b
  deliver (e ∷ es) b = deliver es (call e b)

  deliver-append :
      (es fs : List (Event P)) (b : Backend P C) → deliver (es ++ fs) b ≡ deliver fs (deliver es b)
  unfolding deliver
  deliver-append [] fs b = refl
  deliver-append (e ∷ es) fs b = deliver-append es fs (call e b)

  -- One more event to every back-end, after those that each has had.
  backend_record-deliver :
      (es : List (Event P)) (e : Event P) (bs : List (Backend P C))
      → backend_record (map (deliver es) bs) e ≡ map (deliver (es ++ (e ∷ []))) bs
  unfolding backend_record deliver
  backend_record-deliver es e [] = refl
  backend_record-deliver es e (b ∷ bs) =
      ap₂ (λ x xs. x ∷ xs) (sym (deliver-append es (e ∷ []) b)) (backend_record-deliver es e bs)

  deliver_nil : (bs : List (Backend P C)) → map (deliver []) bs ≡ bs
  unfolding deliver
  deliver_nil [] = refl
  deliver_nil (b ∷ bs) = ap (λ t. b ∷ t) (deliver_nil bs)

-- the events of a poll with these values
abbrev pub events : {P : Type 0} → List P → List (Event P)
events polls = begin ∷ (map metric polls ++ (finish ∷ []))

-- the polls that the buckets point to
abbrev pub Pointed : (F : Float) → List (Poll F) → List Bucket → List (Poll F) → Type 0
Pointed F polls buckets ps = map (λ (b : Bucket). get_elem? polls b.value) buckets ≡ map some ps

module _ (F : Float) {C : Type 0} where
  record_all-deliver :
      (polls : List (Poll F)) (buckets : List Bucket) (es : List (Event (Poll F)))
      (bs : List (Backend (Poll F) C))
      → All (λ (b : Bucket). b.value < length polls) buckets
      → (ps : List (Poll F)) × Pointed F polls buckets ps
        × (record_all F polls buckets (map (deliver es) bs)
            ≡ ok (map (deliver (es ++ map metric ps)) bs))
  unfolding record_all
  record_all-deliver polls [] es bs owned =
      ([], refl, ap (λ t. ok (map (deliver t) bs)) (sym (append-nil es)))
  record_all-deliver polls (b ∷ rest) es bs owned =
      let (poll, at) = get_elem?-some polls b.value owned.0 in
      let (ps, pointed, done) =
        record_all-deliver polls rest (es ++ (metric poll ∷ [])) bs owned.1 in
      (
        poll ∷ ps,
        ap₂ (λ x xs. x ∷ xs) at pointed,
        rw (at, record_all, backend_record-deliver es (metric poll) bs)
            (done
              ∙ ap (λ t. ok (map (deliver t) bs))
                  (append_assoc es (metric poll ∷ []) (map metric ps))),
      )

module _ (F : Float) where
  -- the values that a poll starts from
  abbrev pub no_values : Values F
  no_values = record { table = Htable.reset; polls = [] }

  pub no_values-IsValid : IsValid F no_values
  unfolding lookup
  no_values-IsValid = record { table = reset-IsValid; owned = λ q p h. cc; apart = λ q r p h k. cc }

  -- The buckets of the walk lead to polls.
  pub entries-owned :
      (vals : Values F)
      → IsValid F vals
      → All (λ (b : Bucket). b.value < length vals.polls) (entries vals.table)
  entries-owned vals v = rw (entries-occupied vals.table v.table) (
      All-map (λ (b : Bucket). Stored vals.table.table b.value)
        (λ (b : Bucket). b.value < length vals.polls) (occupied vals.table.table)
        (λ b (q, h). v.owned q b.value h) (occupied-Stored vals.table.table v.table.array.unique))

module _ (F : Float) {S : Type 0} (A : Allocator S) where
  -- that the values are valid where nothing has stopped
  abbrev Kept : Run (Cells F × Values F) → Type 0
  Kept st = (s : Cells F × Values F) → st ≡ ok s → IsValid F s.1

  visit_lens_keeps :
      (fuel : ℕ) (c : Chance F) (ctx : Context F) (st : Run (Cells F × Values F)) (l : Header)
      → Kept st
      → Kept (visit_lens F A fuel c ctx st l).0
  visit_lens_keeps fuel c ctx st l kept s run =
      let (s0, before, after) = >>=-eq-ok st (λ s. poll_lens F fuel c ctx s l) run in
      let (key, built, m) = poll_lens-Merged F fuel c ctx s0.0 s0.1 l (kept s0 before) after in
      m.valid

  poll_optics-IsValid :
      (fuel : ℕ) (c : Chance F) (host : Text) (item : Item F A) (ts : ℕ) (vals : Values F)
      {out : Item F A × Values F}
      → IsValid F vals
      → poll_optics F A fuel c host item ts vals ≡ ok out
      → IsValid F out.1
  unfolding poll_optics foreach_lens
  poll_optics-IsValid fuel c host item ts vals {out} v run =
      let since = elapsed ts item.last_poll in
      let ctx : Context F = record {
        ts = ts;
        elapsed = since;
        host = host;
        prefix = item.shared.optics.prefix;
        epoch = item.epoch;
      } in
      let o = item.shared.optics in
      let start : Run (Cells F × Values F) = ok (item.shared.cells, vals) in
      let (_, _, run1) = >>=-eq-ok (assert (ltb 0 since)) _ run in
      let (walked, walk, run2) =
        >>=-eq-ok (foreach_lens A fuel o (visit_lens F A fuel c ctx) start) _ run1 in
      let (s, ended, run3) = >>=-eq-ok walked.0 _ run2 in
      let kept : Kept walked.0 =
        foreach_from_keeps A (visit_lens F A fuel c ctx) Kept (visit_lens_keeps fuel c ctx) fuel o
          start o.lens_head (λ s0 e. subst (λ (x : Cells F × Values F). IsValid F x.1) (ok_inj e) v)
          walk in
      subst (λ (x : Item F A × Values F). IsValid F x.1) (ok_inj run3) (kept s ended)

  poll_items-IsValid :
      (fuel : ℕ) (chance : ℕ → Chance F) (host : Text) (ts i : ℕ) (items : List (Item F A))
      (vals : Values F) {out : List (Item F A) × Values F}
      → IsValid F vals
      → poll_items F A fuel chance host ts i items vals ≡ ok out
      → IsValid F out.1
  unfolding poll_items
  poll_items-IsValid fuel chance host ts i [] vals v run =
      subst (λ (x : List (Item F A) × Values F). IsValid F x.1) (ok_inj run) v
  poll_items-IsValid fuel chance host ts i (item ∷ items) vals v run =
      let (r, one, run1) = >>=-eq-ok (poll_optics F A fuel (chance i) host item ts vals) _ run in
      let (rest, more, run2) =
        >>=-eq-ok (poll_items F A fuel chance host ts (i + 1) items r.1) _ run1 in
      let v1 = poll_optics-IsValid fuel (chance i) host item ts vals v one in
      subst (λ (x : List (Item F A) × Values F). IsValid F x.1) (ok_inj run2)
        (poll_items-IsValid fuel chance host ts (i + 1) items r.1 v1 more)

  module _ {C : Type 0} where
    -- A poll of the regions that it found: the values that their lenses give, and what it tells the
    -- back-ends.
    pub record Polled (fuel : ℕ) (chance : ℕ → Chance F) (poller : Poller (Poll F) C) (ts : ℕ)
        (found items : List (Item F A)) (vals : Values F) : Type 0 where
      pub polls : List (Poll F)
      pub valid : IsValid F vals
      pub pointed : Pointed F vals.polls (occupied vals.table.table) polls
      pub told :
          poll_found F A fuel chance poller ts found
          ≡ ok (record poller { backends = map (deliver (events polls)) poller.backends }, items)

    -- A poll returns wherever the epochs of its regions turn and their lenses are read, into one
    -- table that starts empty. Every back-end gets the same events then, over its own state: the
    -- begin, one metric for each bucket of the table with a key, and the end. The table is valid,
    -- so no two metrics are of the same key.
    pub poll_found-Polled :
        (fuel : ℕ) (chance : ℕ → Chance F) (poller : Poller (Poll F) C) (ts : ℕ)
        (found : List (Item F A)) {turned items : List (Item F A)} {vals : Values F}
        → turn_epochs F A fuel ts found ≡ ok turned
        → poll_items F A fuel chance poller.host ts 0 turned (no_values F) ≡ ok (items, vals)
        → Polled fuel chance poller ts found items vals
    unfolding poll_found
    poll_found-Polled fuel chance poller ts found {turned} {items} {vals} turns reads =
        let bs = poller.backends in
        let valid =
          poll_items-IsValid fuel chance poller.host ts 0 turned (no_values F) (no_values-IsValid F)
            reads in
        let begun : backend_record bs begin ≡ map (deliver (begin ∷ [])) bs =
          ap (λ t. backend_record t begin) (sym (deliver_nil bs))
          ∙ backend_record-deliver [] begin bs in
        let (ps, pointed, done) =
          record_all-deliver F vals.polls (entries vals.table) (begin ∷ []) bs
            (entries-owned F vals valid) in
        record {
          polls = ps;
          valid = valid;
          pointed =
              subst (λ (t : List Bucket). Pointed F vals.polls t ps)
                (entries-occupied vals.table valid.table) pointed;
          told =
              rw (turns, reads, poll_found, begun, done)
                (ap (λ t. ok (record poller { backends = t }, items))
                  (backend_record-deliver (begin ∷ map metric ps) finish bs));
        }
