-- ===== src/Optics/Names.antt =====
-- src/optics.c: the lenses by name, and the map that the table of keys stands for.
use optics.Base.{
  ℕ, ◌≡◌, refl, sym, ap, ◌∙◌, true, false, Option, none, some, Text, ok, abort, >>=-eq-ok, ok_inj,
  Option-cases, if◌then◌else◌, Bool-cases, inl, inr, ◌==◌,
}
use optics.Htable
use optics.Htable.{Htable, Ret}
use optics.Htable.Table.{same}
use optics.Htable.Resize.{IsValid, view}
use optics.Htable.Ops.{put-Does, get-Does}
use optics.Htable.Cases.{insert, put_ret, ret_of, unchanged}
use optics.Optics.Space.{Allocator}
use optics.Optics.{Optics, lens_ptr, push_lens, set_next, at}
use optics.Optics.Registry.{publish, lens_get}

-- a lens where its name is free, and nothing where it is taken
abbrev pub granted : ℕ → Option ℕ → Option ℕ
granted lens none = some lens
granted lens (some v) = none

module _ {S : Type 0} (A : Allocator S) where
  set_next-keys :
      (o : Optics S) (x n : ℕ) {o' : Optics S} → set_next A o x n ≡ ok o' → o'.keys ≡ o.keys
  unfolding set_next
  set_next-keys o x n run = elim (Bool-cases (n == 0)) [
    | inl last ↦ sym (ap (λ (p : Optics S). p.keys) (ok_inj (rw (last, set_next) at run)))
    | inr more ↦ elim (Bool-cases (lens_ptr A o n)) [
      | inr lost ↦ let bad : abort ≡ ok _ = rw (more, lost, set_next) at run in cc
      | inl found ↦
          let m = at o.lenses x (record (o.lenses x) { next = n }) in
          elim (Bool-cases ((m n).prev == 0)) [
            | inr taken ↦ let bad : abort ≡ ok _ = rw (more, found, taken, set_next) at run in cc
            | inl free ↦
                sym
                  (ap (λ (p : Optics S). p.keys) (ok_inj (rw (more, found, free, set_next) at run)))
          ]
    ]
  ]

  push_lens-keys :
      (o : Optics S) (x : ℕ) {o' : Optics S} → push_lens A o x ≡ ok o' → o'.keys ≡ o.keys
  unfolding push_lens
  push_lens-keys o x run =
      let (p, linked, done) = >>=-eq-ok (set_next A o x o.lens_head) _ run in
      sym (ap (λ (z : Optics S). z.keys) (ok_inj done)) ∙ set_next-keys o x o.lens_head linked

  -- With a valid table of keys, a lens whose publication returns gets its name exactly if the name
  -- is free; then the name refers to it, no other name changes, and the table stays valid.
  pub publish-view :
      (fuel : ℕ) (o : Optics S) (x : ℕ) {o' : Optics S} {h : Option ℕ}
      → IsValid o.keys
      → publish A fuel o x ≡ ok (o', h)
      → let name = (o.lenses x).name in
        let old = view o.keys name in
        IsValid o'.keys
        × (h ≡ granted x old)
        × ((q : Text)
            → view o'.keys q ≡ (if same name q then insert (o.lenses x).off old else view o.keys q))
  unfolding publish
  publish-view fuel o x {o'} {h} v run =
      let l = o.lenses x in
      elim (Option-cases (Htable.put fuel o.keys l.name l.off)) [
        | inl stuck ↦ let bad : abort ≡ ok (o', h) = rw (stuck, publish) at run in cc
        | inr (out, e) ↦
            let d = put-Does fuel l.name l.off v e in
            elim (Option-cases (view o.keys l.name)) [
              | inl new ↦
                  let found : out.1.found ≡ true =
                    ap (λ (r : Ret). r.found) (d.returns ∙ ap put_ret new) in
                  let (o2, pushed, done) = >>=-eq-ok _ _ (rw (e, found, publish) at run) in
                  let same_keys : o'.keys ≡ out.0 =
                    ap (λ (z : Optics S × Option ℕ). z.0.keys) (sym (ok_inj done))
                    ∙ push_lens-keys (record o { keys = out.0 }) x pushed in
                  (
                    rw same_keys d.valid,
                    ap (λ (z : Optics S × Option ℕ). z.1) (sym (ok_inj done))
                        ∙ ap (granted x) (sym new),
                    λ q. ap (λ k. view k q) same_keys ∙ d.reads q,
                  )
              | inr (old, is) ↦
                  let found : out.1.found ≡ false =
                    ap (λ (r : Ret). r.found) (d.returns ∙ ap put_ret is) in
                  let done = ok_inj (rw (e, found, publish) at run) in
                  let same_keys : o'.keys ≡ out.0 =
                    ap (λ (z : Optics S × Option ℕ). z.0.keys) (sym done) in
                  (
                    rw same_keys d.valid,
                    ap (λ (z : Optics S × Option ℕ). z.1) (sym done) ∙ ap (granted x) (sym is),
                    λ q. ap (λ k. view k q) same_keys ∙ d.reads q,
                  )
            ]
      ]

  -- the handle for what a name refers to; it holds 0 for a lens that cannot be reached
  abbrev pub handle_of : Optics S → Option ℕ → Option ℕ
  handle_of o none = none
  handle_of o (some x) = some (if lens_ptr A o x then x else 0)

  found_handle :
      (o : Optics S) (x : Option ℕ)
      → (if (ret_of x).found
          then some (if lens_ptr A o (ret_of x).value then (ret_of x).value else 0)
          else none)
        ≡ handle_of o x
  found_handle o none = refl
  found_handle o (some x) = refl

  -- With a valid table of keys, a look-up by name that returns gives a handle exactly if the name
  -- refers to a lens, with that lens in it if it can be reached, and changes no name.
  pub lens_get-view :
      (fuel : ℕ) (o : Optics S) (name : Text) {o' : Optics S} {h : Option ℕ}
      → IsValid o.keys
      → lens_get A fuel o name ≡ ok (o', h)
      → IsValid o'.keys
        × ((q : Text) → view o'.keys q ≡ view o.keys q)
        × (h ≡ handle_of o (view o.keys name))
  unfolding lens_get
  lens_get-view fuel o name {o'} {h} v run = elim (Option-cases (Htable.get fuel o.keys name)) [
    | inl stuck ↦ let bad : abort ≡ ok (o', h) = rw (stuck, lens_get) at run in cc
    | inr (out, e) ↦
        let d = get-Does fuel v name e in
        let done = ok_inj (rw (e, lens_get) at run) in
        let same_keys : o'.keys ≡ out.0 = ap (λ (z : Optics S × Option ℕ). z.0.keys) (sym done) in
        let handle = ap (λ (z : Optics S × Option ℕ). z.1) (sym done) in
        (
          rw same_keys d.valid,
          λ q. ap (λ k. view k q) same_keys ∙ d.reads q ∙ sym (unchanged o.keys name q),
          handle ∙ rw (d.returns) (found_handle o (view o.keys name)),
        )
  ]
