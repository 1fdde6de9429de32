-- ===== src/Crest/Response.antt =====
-- src/utils/crest/resp.c: a response, and how it is sent through the HTTP server library.
pub mod Headers
use optics.Base.{
  ℕ, ◌+◌, Bool, true, false, List, [], ◌∷◌, ◌++◌, map, Option, none, some, Text, take, length,
  get_or, set, Run, ok, abort, ◌>>=◌, ◌>>◌, assert, if◌then◌else◌, ◌&&◌,
}
use optics.Buffer
use optics.Buffer.{Buffer}
use optics.Htable
use optics.Htable.{Htable, Bucket}
use optics.Htable.Next.{entries}

-- `struct crest_resp`. The values of `headers` point to copies of texts: the pointer is the number
-- of the copy in `copies`, which is `none` once it is freed.
pub record Response : Type 0 where
  pub headers : Htable
  pub copies : List (Option Text)
  pub body : Buffer

-- the zeroed struct that a response starts as
abbrev pub fresh : Response
fresh = record { headers = Htable.reset; copies = []; body = Buffer.reset }

-- the text that a pointer leads to
abbrev pub copy : List (Option Text) → ℕ → Text
copy copies p = elim (get_or copies p none) [ none ↦ [] | some t ↦ t ]

-- the loop of `crest_resp_free` over the buckets
unfoldable pub free_copies : List Bucket → List (Option Text) → List (Option Text)
free_copies [] copies = copies
free_copies (b ∷ bs) copies = free_copies bs (set copies b.value none)

-- `crest_resp_free`
unfoldable pub free : Response → Response
unfolding free_copies
free resp = record {
  headers = Htable.reset;
  copies = free_copies (entries resp.headers) resp.copies;
  body = Buffer.reset;
}

-- `crest_resp_add_header`; `none` where the table does not return
unfoldable pub add_header : ℕ → Response → Text → Text → Option Response
add_header fuel resp key value =
    let p = length resp.copies in
    let copies = resp.copies ++ (some value ∷ []) in
    elim (Htable.get fuel resp.headers key) [
      | none ↦ none
      | some (headers, r) ↦
          if r.found
          then elim (Htable.xchg fuel headers key p) [
            | none ↦ none
            | some (headers', old) ↦
                some (record resp { headers = headers'; copies = set copies old.value none })
          ]
          else elim (Htable.put fuel headers key p) [
            | none ↦ none
            | some (headers', _) ↦ some (record resp { headers = headers'; copies = copies })
          ]
    ]

-- `crest_resp_write`
unfoldable pub write : Response → List ℕ → Response
write resp bytes = record resp { body = Buffer.write resp.body bytes }

-- What the HTTP server library answers: whether it makes a response of so many bytes, takes a
-- header, and queues a response with a status.
pub record Library : Type 0 where
  pub creates : ℕ → Bool
  pub adds : Text → Text → Bool
  pub queues : ℕ → Bool

-- a response that was queued
pub record Reply : Type 0 where
  pub code : ℕ
  pub headers : List (Text × Text)
  pub body : List ℕ

-- the header of a bucket
abbrev pub header : List (Option Text) → Bucket → Text × Text
header copies b = (elim b.key as (λ _. Text) [ none ↦ [] | some k ↦ k ], copy copies b.value)

-- the headers that a response has
abbrev pub header_list : Response → List (Text × Text)
header_list resp = map (header resp.copies) (entries resp.headers)

-- What `crest_resp_send` leaves and queues; the library takes the bytes of the body.
abbrev pub queued : Response → ℕ → Response × Reply
queued resp code = (
  record resp { body = Buffer.reset },
  record { code = code; headers = header_list resp; body = take resp.body.len resp.body.bytes },
)

module _ (lib : Library) where
  -- the loop of `crest_resp_send` over the headers
  unfoldable pub add_all : List (Text × Text) → Run (Unit {0})
  add_all [] = ok tt
  add_all (h ∷ hs) = let rest = add_all hs in assert (lib.adds h.0 h.1) >> rest

  -- `crest_resp_send`
  unfoldable pub send : Response → ℕ → Run (Response × Reply)
  unfolding add_all
  send resp code =
      assert (lib.creates resp.body.len)
      >> (add_all (header_list resp) >> (assert (lib.queues code) >> ok (queued resp code)))

  -- `crest_resp_send_error`; the reason is read up to 1024 bytes
  unfoldable pub send_error : Response → ℕ → Text → Run (Response × Reply)
  unfolding send write
  send_error resp code reason = send (write resp (take 1024 reason)) code
