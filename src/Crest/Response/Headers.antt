-- ===== src/Crest/Response/Headers.antt =====
-- src/utils/crest/resp.c: the headers of a response as a map from keys to texts.
use optics.Base.{
  ℕ, ◌+◌, ◌-◌, ◌<◌, ◌≡◌, ◌≢◌, sym, ap, subst, false≢true, ◌∙◌, inl, inr, true, false, List, [], ◌∷◌,
  ◌++◌, Option, none, some, some_inj, Text, length, get_or, set, arith, if◌then◌else◌, Bool-cases,
  Option-cases, length-append, length-set, get_or-append_lt, get_or-append_ge, get_or-set_ne,
}
use optics.Htable
use optics.Htable.{Htable, Ret}
use optics.Htable.Table.{same}
use optics.Htable.Resize
use optics.Htable.Resize.{view, reset-IsValid}
use optics.Htable.Owned.{Owned, choose, reads_new, reads_old, Owned-new}
use optics.Htable.Cases.{unchanged, ret_of, insert, replace}
use optics.Htable.Ops.{get-Does, xchg-Does, put-Does}
use optics.Crest.Response.{Response, add_header}

-- The pointers of the table lead to copies, each to its own.
abbrev pub IsValid : Response → Type 0
IsValid resp = Owned resp.headers (length resp.copies)

-- what a value of the table leads to
abbrev at_pointer : List (Option Text) → Option ℕ → Option Text
at_pointer copies none = none
at_pointer copies (some p) = get_or copies p none

-- the text of a header
abbrev pub header_text : Response → Text → Option Text
header_text resp q = at_pointer resp.copies (view resp.headers q)

-- what the addition of a header leaves
pub record Set (resp : Response) (key value : Text) (resp' : Response) : Type 0 where
  pub valid : IsValid resp'
  pub reads :
      (q : Text) → header_text resp' q ≡ (if same key q then some value else header_text resp q)

-- A table with a new pointer under the key, and copies that keep what other keys point to.
module _ (resp : Response) (v : IsValid resp) (key value : Text) (ht : Htable)
    (copies : List (Option Text)) (table : Resize.IsValid ht)
    (reads : (q : Text)
      → view ht q ≡ (if same key q then some (length resp.copies) else view resp.headers q))
    (longer : length copies ≡ length resp.copies + 1)
    (new : get_or copies (length resp.copies) none ≡ some value)
    (kept : (q : Text) (p : ℕ)
      → same key q ≡ false
      → view resp.headers q ≡ some p
      → get_or copies p none ≡ get_or resp.copies p none) where
  abbrev after : Response
  after = record resp { headers = ht; copies = copies }

  text_old : (q : Text) → same key q ≡ false → header_text after q ≡ header_text resp q
  text_old q e =
      ap (at_pointer copies) (reads_old v key ht table reads q e)
      ∙ elim (Option-cases (view resp.headers q)) [
        | inl nothing ↦ rw nothing
        | inr (p, at) ↦ rw at (kept q p e at)
      ]

  set_key : Set resp key value after
  set_key = record {
    valid = subst (Owned ht) (sym longer) (Owned-new v key ht table reads);
    reads = λ q. elim (Bool-cases (same key q)) [
      | inl e ↦ ap (at_pointer copies) (reads_new v key ht table reads q e) ∙ new ∙ rw e
      | inr e ↦ text_old q e ∙ rw e
    ];
  }

-- A header that is added to a valid response, where the table returns, has its text whether the key
-- was there or not; no other header changes, and no two keys share a copy.
pub add_header-Set :
    (fuel : ℕ) {resp resp' : Response} (key value : Text)
    → IsValid resp
    → add_header fuel resp key value ≡ some resp'
    → Set resp key value resp'
unfolding add_header
add_header-Set fuel {resp} {resp'} key value v run =
    elim (Option-cases (Htable.get fuel resp.headers key)) [
      | inl stuck ↦ let bad : none ≡ some resp' = rw (stuck, add_header) at run in cc
      | inr ((h1, r), got) ↦
          let d = get-Does fuel v.table key got in
          let same_view : (q : Text) → view h1 q ≡ view resp.headers q =
            λ q. d.reads q ∙ sym (unchanged resp.headers key q) in
          let p = length resp.copies in
          let longer = resp.copies ++ (some value ∷ []) in
          let long : length longer ≡ p + 1 =
            omega (arith, length-append resp.copies (some value ∷ [])) in
          let last : get_or longer p none ≡ some value =
            get_or-append_ge resp.copies (some value ∷ []) p none (omega arith)
            ∙ ap (λ i. get_or (some value ∷ []) i none) (let z : p - p ≡ 0 = omega arith in z) in
          elim (Option-cases (view resp.headers key)) [
            | inl absent ↦
                let not_found : r.found ≡ false =
                  ap (λ (x : Ret). x.found) (d.returns ∙ ap ret_of absent) in
                elim (Option-cases (Htable.put fuel h1 key p)) [
                  | inl stuck ↦
                      let bad : none ≡ some resp' = rw (got, not_found, stuck, add_header) at run in
                      cc
                  | inr ((h2, r2), put) ↦
                      let d2 = put-Does fuel key p d.valid put in
                      let end : some (record resp { headers = h2; copies = longer }) ≡ some resp' =
                        rw (got, not_found, put, add_header) at run in
                      subst (Set resp key value) (some_inj end) (
                        set_key resp v key value h2 longer d2.valid
                          (λ q.
                            d2.reads q
                            ∙ choose key q (ap (insert p) (same_view key ∙ absent)) (same_view q))
                          long last
                          (λ q i e at. get_or-append_lt resp.copies _ i none (v.owned q i at)))
                ]
            | inr (old, at) ↦
                let is_found : r.found ≡ true =
                  ap (λ (x : Ret). x.found) (d.returns ∙ ap ret_of at) in
                let below : old < p = v.owned key old at in
                elim (Option-cases (Htable.xchg fuel h1 key p)) [
                  | inl stuck ↦
                      let bad : none ≡ some resp' = rw (got, is_found, stuck, add_header) at run in
                      cc
                  | inr ((h2, r2), put) ↦
                      let d2 = xchg-Does fuel d.valid key p put in
                      let back : r2.value ≡ old =
                        ap (λ (x : Ret). x.value) (d2.returns ∙ ap ret_of (same_view key ∙ at)) in
                      let freed = set longer old none in
                      let end : some (record resp { headers = h2; copies = freed }) ≡ some resp' =
                        rw (← back) (rw (got, is_found, put, add_header) at run) in
                      let other : (i : ℕ) → old ≢ i → get_or freed i none ≡ get_or longer i none =
                        λ i ne. get_or-set_ne longer old i none none ne in
                      subst (Set resp key value) (some_inj end) (
                        set_key resp v key value h2 freed d2.valid
                          (λ q.
                            d2.reads q
                            ∙ choose key q (ap (replace p) (same_view key ∙ at)) (same_view q))
                          (length-set longer old none ∙ long) (other p (omega arith) ∙ last)
                          (λ q i e here.
                            other i (λ eq.
                              false≢true (sym e ∙ v.apart key q old at (here ∙ ap some (sym eq))))
                            ∙ get_or-append_lt resp.copies _ i none (v.owned q i here)))
                ]
          ]
    ]
