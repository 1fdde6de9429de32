-- ===== src/Crest/Process/Served.antt =====
-- src/utils/crest/crest.c: which requests reach a callback, and that every request is answered.
use optics.Base.{ℕ, ◌≡◌, refl, Bool, true, false, Option, none, some, ok, assert}
use optics.Crest.Request.{Method, get, put, post, delete, Request, get_method, get_path}
use optics.Crest.Response.{Response}
use optics.Crest.Process.{done, Action, Resource, Crest, routed, callback, run_test}

-- the status of a request that is done, by its method and whether its resource exists
abbrev pub success : Method → Bool → Option ℕ
success get true = some 200
success post true = some 204
success delete true = some 204
success put false = some 201
success post false = some 201
success _ _ = none

-- A request that is served: its resource and callback are there, each test passes in turn, and the
-- callback reports that it is done.
pub record Served {S : Type 0} (crest : Crest S) (s : S) (req : Request) (resp : Response) (s' : S)
    (req' : Request) (code : ℕ) : Type 0 where
  pub res : Resource S
  pub cb : Action S
  pub s1 : S
  pub s2 : S
  pub s3 : S
  pub s4 : S
  pub req1 : Request
  pub req2 : Request
  pub req3 : Request
  pub req4 : Request
  pub there : Bool
  pub resp' : Response
  pub found : routed crest (get_path req).1 ≡ some res
  pub handled : callback res (get_method (get_path req).0) ≡ some cb
  pub authorized : run_test res.authorized s (get_path req).0 ≡ (s1, req1, true)
  pub forbidden : run_test res.forbidden s1 req1 ≡ (s2, req2, true)
  pub accepts : run_test res.accepts s2 req2 ≡ (s3, req3, true)
  pub exists : run_test res.exists s3 req3 ≡ (s4, req4, there)
  pub allowed : success (get_method (get_path req).0) there ≡ some code
  pub finished : cb s4 req4 resp ≡ (s', req', resp', done)

assert-eq-ok : (b : Bool) → assert b ≡ ok tt → b ≡ true
assert-eq-ok true e = refl
assert-eq-ok false e = cc
