-- ===== src/Crest/Process/Answers.antt =====
-- src/utils/crest/crest.c: a request that no assertion stops is answered.
use optics.Base.{
  ℕ, ◌≡◌, ◌≢◌, refl, inl, inr, Bool, true, false, List, [], ◌∷◌, Option, none, some, Text, ok,
  Bool-cases, Option-cases, bytes, take,
}
use optics.Crest.Request.{
  Method, get, put, post, delete, unsupported, Request, get_method, get_path,
}
use optics.Crest.Response.{
  Response, Library, Reply, send, send_error, write, header_list, queued, add_all,
}
use optics.Crest.Process.{
  Result, done, failed, conflict, unknown, Test, Action, Resource, Crest, Outcome, routed, callback,
  run_test, refuse, call_cb, dispatch, check, run_tests, process, after_authorized, after_forbidden,
  after_accepts,
}

-- a library that takes every response
pub record Accepting (lib : Library) : Type 0 where
  pub creates : (n : ℕ) → lib.creates n ≡ true
  pub adds : (k v : Text) → lib.adds k v ≡ true
  pub queues : (n : ℕ) → lib.queues n ≡ true

-- an outcome that is an answer
abbrev pub Answers : {S : Type 0} → Outcome S → Type 0
Answers {S} run = (out : S × Request × Response × Reply) × (run ≡ ok out)

module _ {lib : Library} (accepting : Accepting lib) where
  add_all-ok : (hs : List (Text × Text)) → add_all lib hs ≡ ok tt
  unfolding add_all
  add_all-ok [] = refl
  add_all-ok (h ∷ hs) = rw (accepting.adds h.0 h.1, add_all-ok hs)

  pub send-ok : (resp : Response) (code : ℕ) → send lib resp code ≡ ok (queued resp code)
  unfolding send
  send-ok resp code =
      rw (accepting.creates resp.body.len, add_all-ok (header_list resp), accepting.queues code)

module _ {S : Type 0} {lib : Library} (accepting : Accepting lib) where
  refuse-Answers :
      (s : S) (req : Request) (resp : Response) (code : ℕ) (reason : Text)
      → Answers (refuse lib s req resp code reason)
  unfolding refuse send_error
  refuse-Answers s req resp code reason =
      let r = write resp (take 1024 reason) in
      let (resp', reply) = queued r code in ((s, req, resp', reply), rw (send-ok accepting r code))

  check-Answers :
      (test : Option (Test S)) (code : ℕ) (reason : Text) (s : S) (req : Request) (resp : Response)
      (next : S → Request → Outcome S)
      → ((s' : S) (req' : Request) → Answers (next s' req'))
      → Answers (check lib test code reason s req resp next)
  unfolding check
  check-Answers test code reason s req resp next h =
      let t = run_test test s req in
      elim (Bool-cases t.2) [
        | inl e ↦ let (out, run) = h t.0 t.1 in (out, rw e run)
        | inr e ↦ let (out, run) = refuse-Answers t.0 t.1 resp code reason in (out, rw e run)
      ]

  module _ (cb : Action S)
      (known : (s : S) (req : Request) (resp : Response) → (cb s req resp).3 ≢ unknown) where
    call_cb-Answers :
        (s : S) (req : Request) (resp : Response) (code : ℕ)
        → Answers (call_cb lib s req resp cb code)
    unfolding call_cb
    call_cb-Answers s req resp code = go (cb s req resp).3 refl
      where
        go : (r : Result) → (cb s req resp).3 ≡ r → Answers (call_cb lib s req resp cb code)
        go done e =
            let ret = cb s req resp in
            let (resp', reply) = queued ret.2 code in
            ((ret.0, ret.1, resp', reply), rw (e, call_cb, send-ok accepting ret.2 code))
        go failed e =
            let ret = cb s req resp in
            let (out, run) = refuse-Answers ret.0 ret.1 ret.2 500 (bytes "internal server error") in
            (out, rw (e, call_cb) run)
        go conflict e =
            let ret = cb s req resp in
            let (out, run) = refuse-Answers ret.0 ret.1 ret.2 409 (bytes "conflict") in
            (out, rw (e, call_cb) run)
        go unknown e = absurd (known s req resp e)

    dispatch-Answers :
        (method : Method) (there : Bool) (s : S) (req : Request) (resp : Response)
        → method ≢ unsupported
        → Answers (dispatch lib method there s req resp cb)
    unfolding dispatch
    dispatch-Answers get true s req resp h = call_cb-Answers s req resp 200
    dispatch-Answers post true s req resp h = call_cb-Answers s req resp 204
    dispatch-Answers delete true s req resp h = call_cb-Answers s req resp 204
    dispatch-Answers put true s req resp h = refuse-Answers s req resp 409 _
    dispatch-Answers put false s req resp h = call_cb-Answers s req resp 201
    dispatch-Answers post false s req resp h = call_cb-Answers s req resp 201
    dispatch-Answers get false s req resp h = refuse-Answers s req resp 404 _
    dispatch-Answers delete false s req resp h = refuse-Answers s req resp 404 _
    dispatch-Answers unsupported true s req resp h = absurd (h refl)
    dispatch-Answers unsupported false s req resp h = absurd (h refl)

    run_tests-Answers :
        (res : Resource S) (method : Method) (s : S) (req : Request) (resp : Response)
        → method ≢ unsupported
        → Answers (run_tests lib res method cb resp s req)
    unfolding run_tests after_authorized after_forbidden after_accepts check
    run_tests-Answers res method s req resp h =
        check-Answers res.authorized 401 (bytes "unauthorized") s req resp
          (after_authorized lib res method cb resp)
          (λ s1 req1.
            check-Answers res.forbidden 403 (bytes "forbidden") s1 req1 resp
              (after_forbidden lib res method cb resp)
              (λ s2 req2.
                check-Answers res.accepts 406 (bytes "not acceptable") s2 req2 resp
                  (after_accepts lib res method cb resp)
                  (λ s3 req3.
                    let t = run_test res.exists s3 req3 in
                    dispatch-Answers method t.2 t.0 t.1 resp h)))

  callback-unsupported :
      (res : Resource S) (method : Method) {cb : Action S}
      → callback res method ≡ some cb
      → method ≢ unsupported
  unfolding callback
  callback-unsupported res method {cb} e bad = let no : none ≡ some cb = rw bad at e in cc

  -- Where the library takes every response, and the callbacks of the resources return one of the
  -- three results, every request is answered: nothing aborts, whatever its path, its method and the
  -- tests.
  pub process-Answers :
      (crest : Crest S) (s : S) (req : Request) (resp : Response)
      → ((path : List Text) (method : Method) (res : Resource S) (cb : Action S)
          → routed crest path ≡ some res
          → callback res method ≡ some cb
          → (s : S) (req : Request) (resp : Response) → (cb s req resp).3 ≢ unknown)
      → Answers (process lib crest s req resp)
  unfolding process
  process-Answers crest s req resp known =
      let req0 = (get_path req).0 in
      elim (Option-cases (routed crest (get_path req).1)) [
        | inl lost ↦
            let (out, run) = refuse-Answers s req0 resp 404 (bytes "unknown resource") in
            (out, rw (process, lost) run)
        | inr (res, found) ↦ elim (Option-cases (callback res (get_method req0))) [
          | inl none_ ↦
              let (out, run) = refuse-Answers s req0 resp 501 (bytes "not implemented") in
              (out, rw (process, found, none_) run)
          | inr (cb, handled) ↦
              let (out, run) =
                run_tests-Answers cb (known (get_path req).1 (get_method req0) res cb found handled)
                  res (get_method req0) s req0 resp
                  (callback-unsupported res (get_method req0) handled) in
              (out, rw (process, found, handled) run)
        ]
      ]
