-- ===== src/Crest/Server/Delivery.antt =====
-- src/utils/crest/crest.c: the body that arrives in pieces.
use optics.Base.{
  ℕ, ◌+◌, ◌-◌, ◌^◌, ◌<◌, min, ◌≡◌, ◌≢◌, refl, sym, ap, ap₂, ◌∙◌, inl, inr, List, [], ◌∷◌, ◌++◌,
  Option, none, some, arith, take, drop, length, replicate, copy_at, ltb, ok, abort, ◌>>=◌, Run,
  All, append_assoc, append-nil, length-append, length-take, take-append, take-append_le, take_all,
  drop-append_ge, drop-replicate, Bool-cases, not-ltb→le, lt→ltb, if◌then◌else◌,
}
use optics.Crest.Response.{Library, Reply, fresh}
use optics.Crest.Process.{Crest, Outcome, process}
use optics.Crest.Server.{
  Body, body_append, new_body, Connection, request, content_length, answer, receive, begin_body,
  microhttpd_cb,
}

-- `n` bytes that begin as `xs`, cut or filled with zeros
abbrev pub padded : ℕ → List ℕ → List ℕ
padded n xs = take n xs ++ replicate (n - length xs) 0

-- the body once `xs` has arrived
abbrev filled : ℕ → List ℕ → Body
filled n xs = record { cap = n; pos = min n (length xs); bytes = padded n xs }

filled_nil : (n : ℕ) → filled n [] ≡ record { cap = n; pos = 0; bytes = replicate n 0 }
filled_nil n =
    let nil : List ℕ = [] in
    let e : padded n nil ≡ replicate n 0 =
      ap₂ (λ (a : List ℕ) (k : ℕ). a ++ replicate k 0) (take_all n nil (omega arith))
        (let same : n - 0 ≡ n = omega arith in same) in
    ap₂ (λ p b. record { cap = n; pos = p; bytes = b })
      (let least : min n 0 ≡ 0 = omega arith in least) e

-- A piece goes behind what has arrived, and is cut at the length of the body.
body_append-filled : (n : ℕ) (xs c : List ℕ) → body_append (filled n xs) c ≡ filled n (xs ++ c)
unfolding body_append
body_append-filled n xs c =
    let pos = min n (length xs) in
    let len = if ltb n (pos + length c) then n - pos else length c in
    let d = take (n - length xs) c in
    let cut : take len c ≡ d = elim (Bool-cases (ltb n (pos + length c))) [
      | inl over ↦ rw over (ap (λ k. take k c) (omega arith))
      | inr fits ↦
          let le = not-ltb→le n (pos + length c) fits in
          rw fits
            (take_all (length c) c (omega arith) ∙ sym (take_all (n - length xs) c (omega arith)))
    ] in
    let pos' : pos + len ≡ min n (length (xs ++ c)) = ground (arith, length-append xs c) in
    let front : length (take n xs) ≡ pos = omega (arith, length-take n xs) in
    let long : length d ≡ min (n - length xs) (length c) = length-take (n - length xs) c in
    let head : take pos (padded n xs) ≡ take n xs =
      take-append_le pos (take n xs) _ (omega arith) ∙ take_all pos (take n xs) (omega arith) in
    let tail : drop (pos + length d) (padded n xs) ≡ replicate (n - length (xs ++ c)) 0 =
      drop-append_ge (pos + length d) (take n xs) _ (omega arith)
      ∙ drop-replicate (pos + length d - length (take n xs)) (n - length xs) 0
      ∙ ap (λ k. replicate k 0) (omega (arith, length-append xs c)) in
    let bytes' : copy_at (padded n xs) pos (take len c) ≡ padded n (xs ++ c) =
      ap (copy_at (padded n xs) pos) cut
      ∙ ap₂ (λ a b. a ++ (d ++ b)) head tail
      ∙ sym (append_assoc (take n xs) d _)
      ∙ ap (λ t. t ++ replicate (n - length (xs ++ c)) 0) (sym (take-append n xs c)) in
    ap₂ (λ p b. record { cap = n; pos = p; bytes = b }) pos' bytes'

abbrev concat : List (List ℕ) → List ℕ
concat [] = []
concat (c ∷ cs) = c ++ concat cs

module _ {S : Type 0} (lib : Library) (crest : Crest S) (conn : Connection) where
  -- the calls that the library makes for a request, with what each carries
  unfoldable pub calls : S → Option Body → List (List ℕ) → Run (S × Option Body × List Reply)
  calls s body [] = ok (s, body, [])
  calls s body (c ∷ cs) = microhttpd_cb lib crest conn s body c >>= λ r. calls r.0 r.1 cs >>= λ t.
      ok (t.0, t.1, (elim r.2 as (λ _. List Reply) [ none ↦ t.2 | some x ↦ x ∷ t.2 ]))

  -- what the processing of the request with the content leaves
  abbrev pub delivered : S → List ℕ → Run (S × Option Body × List Reply)
  delivered s content =
      process lib crest s (request conn content) fresh >>= λ out. ok (out.0, none, out.3 ∷ [])

  finish : (run : Run (S × Option Body × List Reply)) → (run >>= λ t. ok (t.0, t.1, t.2)) ≡ run
  finish (ok t) = refl
  finish abort = refl

  last_call : (s : S) (body : Body) → calls s (some body) ([] ∷ []) ≡ delivered s body.bytes
  unfolding calls microhttpd_cb receive answer
  last_call s body = go (process lib crest s (request conn body.bytes) fresh)
    where
      go :
          (run : Outcome S)
          → let mid : Run (S × Option Body × Option Reply) =
              run >>= λ out. ok (out.0, none, some out.3) in
            let all : Run (S × Option Body × List Reply) =
              run >>= λ out. ok (out.0, none, out.3 ∷ []) in
            let end : Run (S × Option Body × List Reply) = mid >>= λ r.
            ok (r.0, r.1, (elim r.2 as (λ _. List Reply) [ none ↦ [] | some x ↦ x ∷ [] ])) in
            end ≡ all
      go (ok out) = refl
      go abort = refl

  -- the calls once the body is there
  pieces :
      (s : S) (n : ℕ) (xs : List ℕ) (cs : List (List ℕ))
      → All (λ c. c ≢ []) cs
      → calls s (some (filled n xs)) (cs ++ ([] ∷ [])) ≡ delivered s (padded n (xs ++ concat cs))
  unfolding calls microhttpd_cb receive
  pieces s n xs [] h =
      last_call s (filled n xs) ∙ ap (λ t. delivered s (padded n t)) (sym (append-nil xs))
  pieces s n xs ([] ∷ cs) h = absurd (h.0 refl)
  pieces s n xs ((x ∷ c) ∷ cs) h =
      rw (body_append-filled n xs (x ∷ c)) (
        rw (pieces s n (xs ++ (x ∷ c)) cs h.1)
          (rw (append_assoc xs (x ∷ c) (concat cs)) (finish _)))

  -- A request with a content length above 0 and below 2^63 - 16 gets one reply, at its last call:
  -- that of the request whose body is what arrived in pieces that are not empty, cut or filled with
  -- zeros to the content length. The body is released then.
  pub calls-delivered :
      (s : S) (cs : List (List ℕ))
      → 0 < content_length conn.length_header
      → content_length conn.length_header + 16 < 2 ^ 63
      → All (λ c. c ≢ []) cs
      → calls s none ([] ∷ (cs ++ ([] ∷ [])))
        ≡ delivered s (padded (content_length conn.length_header) (concat cs))
  unfolding calls microhttpd_cb new_body begin_body
  calls-delivered s cs pos small h =
      let n = content_length conn.length_header in
      let start : microhttpd_cb lib crest conn s none [] ≡ ok (s, some (filled n []), none) =
        rw (lt→ltb 0 n pos, lt→ltb n (2 ^ 63) (omega arith), lt→ltb (n + 16) (2 ^ 63) small)
          (ap (λ (b : Body). ok (s, some b, none)) (sym (filled_nil n))) in
      rw start (rw (pieces s n [] cs h) (finish (delivered s (padded n (concat cs)))))
