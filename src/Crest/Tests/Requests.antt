-- ===== src/Crest/Tests/Requests.antt =====
-- Runs of a small server with one resource.
use optics.Base.{
  ℕ, zero, suc, ◌+◌, subst, some_inj, Option, get_elem?, ◌≡◌, ◌≢◌, refl, true, List, [], ◌∷◌, ◌++◌,
  none, some, Text, arith, bytes, double_until, replicate,
}
use optics.Buffer
use optics.Htable
use optics.Htable.{vacant}
use optics.Htable.Resize.{reset-IsValid}
use optics.Htable.Table.{lookup}
use optics.Crest.Router.{router, no_wildcards, end, entry, router_route}
use optics.Crest.Request.{Method, Request}
use optics.Crest.Response.{Response, Library, Reply, fresh, write, add_header}
use optics.Crest.Response.Headers.{IsValid}
use optics.Crest.Process.{done, unknown, Crest, Resource, Action, routed, callback, process}
use optics.Crest.Process.Served.{Served}
use optics.Crest.Process.Answers.{Accepting, Answers, process-Answers}
use optics.Crest.Server.{Connection, content_length, strtoul}
use optics.Crest.Server.Delivery.{calls, delivered, padded, calls-delivered}

abbrev all : Library
all = record { creates = λ n. true; adds = λ k v. true; queues = λ n. true }

-- it counts its calls, and answers with the content of the request
abbrev echo : Action ℕ
echo s req resp = (s + 1, req, write resp req.content, done)

abbrev resource : Resource ℕ
resource = record {
  path = bytes "/m";
  authorized = some (λ s req. (s, req, true));
  forbidden = none;
  accepts = none;
  exists = none;
  on_get = some echo;
  on_put = none;
  on_post = none;
  on_delete = none;
}

abbrev server : Crest ℕ
server = record {
  router =
      router none none no_wildcards (entry (bytes "m") (router none (some 0) no_wildcards end) end);
  resources = resource ∷ [];
  started = true;
}

abbrev asked : Request
asked = record {
  url = bytes "/m";
  method = bytes "GET";
  content = bytes "hi";
  pos = 0;
  path = none;
}

abbrev replied : Reply
replied = record { code = 200; headers = []; body = bytes "hi" }

all-Accepting : Accepting all
all-Accepting = record { creates = λ n. refl; adds = λ k v. refl; queues = λ n. refl }

echo_known :
    (method : Method) (cb : Action ℕ)
    → callback resource method ≡ some cb
    → (s : ℕ) (req : Request) (resp : Response) → (cb s req resp).3 ≢ unknown
unfolding callback
echo_known Method.get cb handled s req resp =
    subst (λ (f : Action ℕ). (f s req resp).3 ≢ unknown) (some_inj handled) (λ e. cc)
echo_known Method.put cb handled s req resp = cc
echo_known Method.post cb handled s req resp = cc
echo_known Method.delete cb handled s req resp = cc
echo_known Method.unsupported cb handled s req resp = cc

-- whatever path is routed, it is to the one resource
resource-routed :
    (path : List Text) (res : Resource ℕ) → routed server path ≡ some res → resource ≡ res
unfolding routed
resource-routed path res found = go (router_route server.router path) found
  where
    go :
        (o : Option ℕ)
        → elim o as (λ _. Option (Resource ℕ)) [
          | none ↦ none
          | some i ↦ get_elem? (resource ∷ []) i
        ]
          ≡ some res
        → resource ≡ res
    go none e = cc
    go (some zero) e = some_inj e
    go (some (suc i)) e = cc

all_known :
    (path : List Text) (method : Method) (res : Resource ℕ) (cb : Action ℕ)
    → routed server path ≡ some res
    → callback res method ≡ some cb
    → (s : ℕ) (req : Request) (resp : Response) → (cb s req resp).3 ≢ unknown
all_known path method res cb found =
    subst
      (λ (r : Resource ℕ).
        callback r method ≡ some cb
        → (s : ℕ) (req : Request) (resp : Response) → (cb s req resp).3 ≢ unknown)
      (resource-routed path res found) (echo_known method cb)

process-Answers_example : Answers (process all server 4 asked fresh)
process-Answers_example = process-Answers all-Accepting server 4 asked fresh all_known

-- a request whose body of five bytes arrives in two pieces
abbrev conn : Connection
conn = record { url = bytes "/m"; method = bytes "GET"; length_header = some (bytes "5") }

length_run : content_length conn.length_header ≡ 5
unfolding content_length strtoul
length_run = refl

calls-delivered_example :
    calls all server conn 0 none ([] ∷ (bytes "ab" ∷ bytes "cd" ∷ []) ++ ([] ∷ []))
    ≡ delivered all server conn 0 (padded (content_length conn.length_header) (bytes "abcd"))
calls-delivered_example =
    calls-delivered all server conn 0 (bytes "ab" ∷ bytes "cd" ∷ []) (rw length_run (omega arith))
      (rw length_run (omega arith)) (λ e. cc, (λ e. cc, tt))

fresh-IsValid : IsValid fresh
unfolding lookup
fresh-IsValid = record { table = reset-IsValid; owned = λ q p h. cc; apart = λ q r p h k. cc }

abbrev typed : Response
typed = record fresh {
  headers = record {
    len = 1;
    cap = 8;
    table =
        replicate 3 vacant ++ (record { key = some (bytes "t"); value = 0 } ∷ replicate 4 vacant);
  };
  copies = some (bytes "x") ∷ [];
}

add_header_run : add_header 1 fresh (bytes "t") (bytes "x") ≡ some typed
unfolding add_header Htable.get Htable.resize Htable.allocates Htable.grown double_until
    Htable.rehash Htable.probe Htable.slot Htable.hash Htable.put Htable.probe_put
add_header_run = refl
