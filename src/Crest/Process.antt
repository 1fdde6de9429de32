-- ===== src/Crest/Process.antt =====
-- src/utils/crest/crest.c: a request on its way through the tests of its resource to a callback.
pub mod Served
pub mod Answers
use optics.Base.{
  ℕ, ◌+◌, Bool, true, false, List, [], ◌∷◌, ◌++◌, Option, none, some, Text, length, get_elem?, Run,
  ok, abort, ◌>>=◌, bytes, if◌then◌else◌,
}
use optics.Crest.Tokens.{path_new}
use optics.Crest.Router.{Router, empty, router_add, router_route}
use optics.Crest.Request.{
  Method, get, put, post, delete, unsupported, Request, get_method, get_path,
}
use optics.Crest.Response.{Response, Library, Reply, send, send_error}

-- `enum crest_result`; `unknown` is any other value
pub data Result : Type 0 where
  done failed conflict unknown : Result

-- `crest_test_cb_t` and `crest_resource_cb_t` over a state that the callbacks share
abbrev pub Test : Type 0 → Type 0
Test S = S → Request → S × Request × Bool

abbrev pub Action : Type 0 → Type 0
Action S = S → Request → Response → S × Request × Response × Result

-- what a request ends with: the callbacks' state, the request, the response and what was sent
abbrev pub Outcome : Type 0 → Type 0
Outcome S = Run (S × Request × Response × Reply)

-- `struct crest_res`; `none` for NULL, and each callback has its `context`
pub record Resource (S : Type 0) : Type 0 where
  pub path : Text
  pub authorized : Option (Test S)
  pub forbidden : Option (Test S)
  pub accepts : Option (Test S)
  pub exists : Option (Test S)
  pub on_get : Option (Action S)
  pub on_put : Option (Action S)
  pub on_post : Option (Action S)
  pub on_delete : Option (Action S)

-- `struct crest`. A resource of the router is its number in `resources`.
pub record Crest (S : Type 0) : Type 0 where
  pub router : Router
  pub resources : List (Resource S)
  pub started : Bool

module _ {S : Type 0} where
  -- `crest_new`
  abbrev pub new : Crest S
  new = record { router = empty; resources = []; started = false }

  -- `crest_bind`; whether the daemon starts is the library's answer
  unfoldable pub bind : Crest S → Bool → Crest S × Bool
  bind crest starts = if starts then (record crest { started = true }, true) else (crest, false)

  -- `crest_add`
  unfoldable pub add : Crest S → Resource S → Crest S × Bool
  add crest res =
      if crest.started
      then (crest, false)
      else elim (router_add crest.router (path_new res.path) (length crest.resources)) [
        | none ↦ (crest, false)
        | some table ↦
            (record crest { router = table; resources = crest.resources ++ (res ∷ []) }, true)
      ]

  -- the resource that `router_route` returns
  unfoldable pub routed : Crest S → List Text → Option (Resource S)
  routed crest path = elim (router_route crest.router path) [
    | none ↦ none
    | some i ↦ get_elem? crest.resources i
  ]

  -- the first switch of `crest_process`
  unfoldable pub callback : Resource S → Method → Option (Action S)
  callback res get = res.on_get
  callback res put = res.on_put
  callback res post = res.on_post
  callback res delete = res.on_delete
  callback res unsupported = none

  -- a test that is not there passes
  unfoldable pub run_test : Option (Test S) → S → Request → S × Request × Bool
  run_test none s req = (s, req, true)
  run_test (some test) s req = test s req

  module _ (lib : Library) where
    -- a reply that refuses the request
    unfoldable pub refuse : S → Request → Response → ℕ → Text → Outcome S
    refuse s req resp code reason =
        send_error lib resp code reason >>= λ sent. ok (s, req, sent.0, sent.1)

    -- `crest_call_cb`
    unfoldable pub call_cb : S → Request → Response → Action S → ℕ → Outcome S
    unfolding refuse
    call_cb s req resp cb code =
        let (s', req', resp', result) = cb s req resp in
        elim result [
          | done ↦ send lib resp' code >>= λ sent. ok (s', req', sent.0, sent.1)
          | failed ↦ refuse s' req' resp' 500 (bytes "internal server error")
          | conflict ↦ refuse s' req' resp' 409 (bytes "conflict")
          | unknown ↦ abort
        ]

    -- the two switches at the end of `crest_process`
    unfoldable pub dispatch : Method → Bool → S → Request → Response → Action S → Outcome S
    unfolding refuse call_cb
    dispatch get true s req resp cb = call_cb s req resp cb 200
    dispatch post true s req resp cb = call_cb s req resp cb 204
    dispatch delete true s req resp cb = call_cb s req resp cb 204
    dispatch put true s req resp cb = refuse s req resp 409 (bytes "resource already exists")
    dispatch unsupported true s req resp cb = abort
    dispatch put false s req resp cb = call_cb s req resp cb 201
    dispatch post false s req resp cb = call_cb s req resp cb 201
    dispatch get false s req resp cb = refuse s req resp 404 (bytes "resource doesn't exist")
    dispatch delete false s req resp cb = refuse s req resp 404 (bytes "resource doesn't exist")
    dispatch unsupported false s req resp cb = abort

    -- `if (test && !test(...)) { send_error(...); return; }`
    unfoldable pub check :
        Option (Test S) → ℕ → Text → S → Request → Response → (S → Request → Outcome S) → Outcome S
    check test code reason s req resp next =
        let (s', req', passed) = run_test test s req in
        if passed then next s' req' else refuse s' req' resp code reason

    module _ (res : Resource S) (method : Method) (cb : Action S) (resp : Response) where
      -- `crest_process` from the test of `exists` on, and from each test before it on
      unfoldable pub after_accepts : S → Request → Outcome S
      unfolding dispatch
      after_accepts s req =
          let (s', req', there) = run_test res.exists s req in dispatch method there s' req' resp cb

      unfoldable pub after_forbidden : S → Request → Outcome S
      unfolding check
      after_forbidden s req =
          check res.accepts 406 (bytes "not acceptable") s req resp after_accepts

      unfoldable pub after_authorized : S → Request → Outcome S
      unfolding check
      after_authorized s req =
          check res.forbidden 403 (bytes "forbidden") s req resp after_forbidden

      unfoldable pub run_tests : S → Request → Outcome S
      unfolding check after_authorized after_forbidden after_accepts
      run_tests s req = check res.authorized 401 (bytes "unauthorized") s req resp after_authorized

    -- `crest_process`
    unfoldable pub process : Crest S → S → Request → Response → Outcome S
    unfolding refuse run_tests
    process crest s req resp =
        let (req', path) = get_path req in
        elim (routed crest path) [
          | none ↦ refuse s req' resp 404 (bytes "unknown resource")
          | some res ↦ elim (callback res (get_method req')) [
            | none ↦ refuse s req' resp 501 (bytes "not implemented")
            | some cb ↦ run_tests res (get_method req') cb resp s req'
          ]
        ]
