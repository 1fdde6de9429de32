-- ===== src/Backend/Carbon.antt =====
-- src/backend_carbon.c: a line for each number, over a connection that is made again at most once a
-- timestamp.
pub mod Lines
use optics.Base.{
  ℕ, ◌+◌, Bool, true, false, ◌&&◌, List, [], ◌∷◌, ◌++◌, Text, bytes, some, length, take, ltb, ◌==◌,
  if◌then◌else◌, Run, ok, ◌>>=◌, ◌>>◌, assert,
}
use optics.Buffer
use optics.Lens.Float.{Float}
use optics.Poller.{Event, begin, metric, finish}
use optics.Poller.Values.{Poll}
use optics.Poller.Normalize.{decimal, normalize}

-- `struct carbon`, less the address; a descriptor that is not positive is 0
pub record Carbon : Type 0 where
  pub fd : ℕ
  pub last_attempt : ℕ

-- what `send` returns: the bytes that went out, or an error
pub data Sent : Type 0 where
  sent : ℕ → Sent
  failed : Sent

-- The answers of the network: the descriptor that an attempt to connect gives, and what becomes of a
-- line, by the number of those before.
pub record Net : Type 0 where
  pub connect : ℕ → ℕ
  pub send : ℕ → Text → Sent

-- the connection with the timestamps of the attempts to make it, the last first, and the lines that
-- were given to `send`, the last at the end. `stream` is what went out of them, and `partial` counts
-- the warnings of a partial send.
pub record Link : Type 0 where
  pub carbon : Carbon
  pub attempts : List ℕ
  pub lines : List Text
  pub stream : Text
  pub partial : ℕ

-- `carbon_connect`; `ts` is the time of the attempt
unfoldable pub connect : Net → Link → ℕ → Run (Link × Bool)
connect net link ts =
    assert (link.carbon.fd == 0)
    >> (let fd = net.connect (length link.attempts) in
        ok (
          record link { carbon = record link.carbon { fd = fd }; attempts = ts ∷ link.attempts },
          ltb 0 fd,
        ))

-- the rest of `carbon_send`, once there is a connection
unfoldable pub transmit : Net → Link → Text → Link
transmit net link line = elim (net.send (length link.lines) line) [
  | sent n ↦ record link {
    lines = link.lines ++ (line ∷ []);
    stream = link.stream ++ take n line;
    partial = if ltb 0 n && n == length line then link.partial else link.partial + 1;
  }
  | failed ↦ record link {
    carbon = record link.carbon { fd = 0 };
    lines = link.lines ++ (line ∷ []);
  }
]

-- `carbon_send`
unfoldable pub carbon_send : Net → Link → Text → ℕ → Run Link
unfolding connect transmit
carbon_send net link line ts =
    if link.carbon.fd == 0
    then (if link.carbon.last_attempt == ts
        then ok link
        else (connect net (record link { carbon = record link.carbon { last_attempt = ts } }) ts
            >>= λ r. if r.1 then ok (transmit net r.0 line) else ok r.0))
    else ok (transmit net link line)

module _ (F : Float) (show : Float.D F → Text) (net : Net) where
  open F use {D}

  -- `carbon_dump_normalized`; `show` is `%g`
  unfoldable pub dump_normalized : Poll F → Link → ℕ → Text → D → Run (Link × Bool)
  unfolding carbon_send
  dump_normalized poll link ts key value =
      Buffer.printf Buffer.reset (some (poll.prefix ++ (bytes "." ++ poll.host))) >>= λ b1.
      Buffer.printf b1 (
        some (
          bytes "."
          ++ (key ++ (bytes " " ++ (show value ++ (bytes " " ++ (decimal ts ++ (10 ∷ []))))))))
      >>= λ b2. carbon_send net link (take b2.len b2.bytes) ts >>= λ link'. ok (link', true)

  -- `carbon_dump`
  unfoldable pub dump : Link → Event (Poll F) → Run Link
  unfolding dump_normalized
  dump link begin = ok link
  dump link finish = ok link
  dump link (metric poll) = normalize F (dump_normalized poll) poll link >>= λ r. ok r.0
