-- ===== src/Crest/Server.antt =====
-- src/utils/crest/crest.c: the callback of the HTTP server library, which collects the body of a
-- request and then processes it.
pub mod Delivery
use optics.Base.{
  ℕ, ◌+◌, ◌-◌, ◌*◌, ◌%◌, ◌^◌, Bool, true, false, List, [], ◌∷◌, Option, none, some, Text, length,
  replicate, copy_at, take, ltb, leb, ◌==◌, ◌&&◌, ◌||◌, min, Run, ok, abort, ◌>>=◌, ◌>>◌, assert,
  if◌then◌else◌,
}
use optics.Crest.Request.{Request}
use optics.Crest.Response.{Response, Library, Reply, fresh, free}
use optics.Crest.Process.{Crest, Outcome, process}

-- C's `strtoul(value, NULL, 10)`: white space, a sign, digits up to the first other byte; a value
-- too large is the largest word, and a minus sign negates modulo 2^64
abbrev is_space : ℕ → Bool
is_space c = c == 32 || (leb 9 c && leb c 13)

skip_spaces : Text → Text
skip_spaces [] = []
skip_spaces (c ∷ cs) = let rest = skip_spaces cs in if is_space c then rest else c ∷ cs

digits_from : ℕ → Text → ℕ
digits_from n [] = n
digits_from n (c ∷ cs) =
    let rest = digits_from (n * 10 + (c - b'0')) cs in if leb b'0' c && leb c b'9' then rest else n

abbrev saturate : ℕ → ℕ
saturate n = min n (2 ^ 64 - 1)

abbrev negate : ℕ → ℕ
negate n = if ltb n (2 ^ 64) then (2 ^ 64 - n) % 2 ^ 64 else 2 ^ 64 - 1

unsigned : Text → ℕ
unsigned [] = 0
unsigned (c ∷ cs) =
    if c == b'+'
    then saturate (digits_from 0 cs)
    else if c == b'-'
    then negate (digits_from 0 cs)
    else saturate (digits_from 0 (c ∷ cs))

unfoldable pub strtoul : Text → ℕ
unfolding skip_spaces digits_from unsigned
strtoul value = unsigned (skip_spaces value)

-- `get_content_length`, as the word of its signed result: a word from 2^63 on is negative. A value
-- out of range is the largest word, which is the -1 that the code returns for it.
unfoldable pub content_length : Option Text → ℕ
content_length none = 0
content_length (some value) = strtoul value

-- `struct body`; `bytes` is `data`
pub record Body : Type 0 where
  pub cap : ℕ
  pub pos : ℕ
  pub bytes : List ℕ

-- `body_append`, with the length that it copies
unfoldable pub body_append : Body → List ℕ → Body
body_append body chunk =
    let len =
      if ltb body.cap (body.pos + length chunk) then body.cap - body.pos else length chunk in
    record body { pos = body.pos + len; bytes = copy_at body.bytes body.pos (take len chunk) }

-- the block that `calloc` makes for the body; it fails past `PTRDIFF_MAX`, with 16 bytes of fields
unfoldable pub new_body : ℕ → Run Body
new_body n =
    assert (ltb (n + 16) (2 ^ 63)) >> ok (record { cap = n; pos = 0; bytes = replicate n 0 })

-- what the library knows of a request; `length_header` is the value of the content-length header
pub record Connection : Type 0 where
  pub url : Text
  pub method : Text
  pub length_header : Option Text

-- the request that the last call makes of the body
abbrev pub request : Connection → List ℕ → Request
request conn content = record {
  url = conn.url;
  method = conn.method;
  content = content;
  pos = 0;
  path = none;
}

module _ {S : Type 0} (lib : Library) (crest : Crest S) (conn : Connection) where
  -- what a call of the callback leaves: the callbacks' state, the body that `args` points to, and
  -- the reply that the request was answered with, if it was
  abbrev pub Called : Type 0
  Called = Run (S × Option Body × Option Reply)

  -- The end of `microhttpd_cb`. The response is freed, and so is the body: `args` still points to its
  -- block, but the library does not call again for a request that has been answered.
  unfoldable pub answer : S → Option Body → Called
  answer s body =
      let content : List ℕ = elim body [ none ↦ [] | some b ↦ b.bytes ] in
      process lib crest s (request conn content) fresh >>= λ out. ok (out.0, none, some out.3)

  -- `microhttpd_cb` once there is a body
  unfoldable pub receive : S → Body → List ℕ → Called
  unfolding answer
  receive s body [] = answer s (some body)
  receive s body (c ∷ cs) = ok (s, some (body_append body (c ∷ cs)), none)

  -- the first call, once it has made the body
  unfoldable pub begin_body : S → Body → List ℕ → Called
  unfolding receive
  begin_body s body [] = ok (s, some body, none)
  begin_body s body (c ∷ cs) = receive s body (c ∷ cs)

  -- `microhttpd_cb`. The statement `MHD_NO;` for a negative length does nothing, so such a request
  -- goes on without a body. The library calls again with `args` as the callback left it.
  unfoldable pub microhttpd_cb : S → Option Body → List ℕ → Called
  unfolding answer receive begin_body new_body
  microhttpd_cb s (some body) chunk = receive s body chunk
  microhttpd_cb s none chunk =
      let n = content_length conn.length_header in
      if ltb 0 n && ltb n (2 ^ 63)
      then (new_body n >>= λ body. begin_body s body chunk)
      else answer s none
