-- ===== src/Backend/Carbon/Lines.antt =====
-- src/backend_carbon.c: the lines that a metric becomes, and when the connection is tried.
use optics.Base.{
  concat, ◌+◌, take_all, ℕ, ◌<◌, ◌^◌, ◌≡◌, ◌≢◌, refl, sym, ap, ◌∙◌, inl, inr, true, List, [], ◌∷◌,
  ◌++◌, map, Text, bytes, length, ltb, ◌==◌, if◌then◌else◌, ok, All, append_assoc, append-nil, ap₂,
  lt→ltb, ==_refl, length-append, Bool-cases, ne→not-==, not-==→ne, arith,
}
use optics.Buffer.Contents.{contents, length-contents, reset-IsValid, printf-Appends}
use optics.Lens.Float.{Float}
use optics.Lens.Histo
use optics.Poller.{metric}
use optics.Poller.Values.{Poll, histo}
use optics.Poller.Normalize.{decimal}
use optics.Poller.Normalize.Samples.{samples, report, normalize-report}
use optics.Backend.Carbon.{
  Sent, sent, failed, Net, Link, transmit, carbon_send, dump_normalized, dump,
}

-- the link after an attempt to connect
abbrev tried : Net → Link → ℕ → Link
tried net link ts = record link {
  carbon = record { fd = net.connect (length link.attempts); last_attempt = ts };
  attempts = ts ∷ link.attempts;
}

-- the link after a line
abbrev after : Net → Link → Text → ℕ → Link
after net link line ts =
    if link.carbon.fd == 0
    then (if link.carbon.last_attempt == ts
        then link
        else (if ltb 0 (net.connect (length link.attempts))
            then transmit net (tried net link ts) line
            else tried net link ts))
    else transmit net link line

-- A line is sent, or dropped, without an abort: no connection is made over another.
carbon_send-after :
    (net : Net) (link : Link) (line : Text) (ts : ℕ)
    → carbon_send net link line ts ≡ ok (after net link line ts)
unfolding carbon_send
carbon_send-after net link line ts = elim (Bool-cases (link.carbon.fd == 0)) [
  | inr up ↦ rw up
  | inl down ↦ elim (Bool-cases (link.carbon.last_attempt == ts)) [
    | inl again ↦ rw (down, again)
    | inr first ↦ elim (Bool-cases (ltb 0 (net.connect (length link.attempts)))) [
      | inl made ↦ rw (down, first, made)
      | inr lost ↦ rw (down, first, lost)
    ]
  ]
]

-- No two attempts in a row have the same timestamp, and the last one is kept.
unfoldable pub Spaced : List ℕ → Type 0
Spaced [] = Unit {0}
Spaced (t ∷ []) = Unit {0}
Spaced (t ∷ u ∷ ts) = (t ≢ u) × Spaced (u ∷ ts)

unfoldable pub Latest : ℕ → List ℕ → Type 0
Latest last [] = Unit {0}
Latest last (t ∷ ts) = t ≡ last

pub record IsPaced (link : Link) : Type 0 where
  pub spaced : Spaced link.attempts
  pub latest : Latest link.carbon.last_attempt link.attempts

Spaced-cons : (ts : List ℕ) (t last : ℕ) → Spaced ts → Latest last ts → last ≢ t → Spaced (t ∷ ts)
unfolding Spaced Latest
Spaced-cons [] t last s l ne = tt
Spaced-cons (u ∷ ts) t last s l ne = (λ e. ne (sym l ∙ sym e), s)

transmit-IsPaced :
    (net : Net) (link : Link) (line : Text) → IsPaced link → IsPaced (transmit net link line)
unfolding transmit
transmit-IsPaced net link line p = go (net.send (length link.lines) line) refl
  where
    go : (r : Sent) → net.send (length link.lines) line ≡ r → IsPaced (transmit net link line)
    go (sent n) e = rw (e, transmit) (record { spaced = p.spaced; latest = p.latest })
    go failed e = rw (e, transmit) (record { spaced = p.spaced; latest = p.latest })

after-IsPaced :
    (net : Net) (link : Link) (line : Text) (ts : ℕ)
    → IsPaced link
    → IsPaced (after net link line ts)
unfolding Latest
after-IsPaced net link line ts p = elim (Bool-cases (link.carbon.fd == 0)) [
  | inr up ↦ rw up (transmit-IsPaced net link line p)
  | inl down ↦ elim (Bool-cases (link.carbon.last_attempt == ts)) [
    | inl again ↦ rw (down, again) p
    | inr first ↦
        let ne = not-==→ne link.carbon.last_attempt ts first in
        let p' : IsPaced (tried net link ts) = record {
          spaced = Spaced-cons link.attempts ts link.carbon.last_attempt p.spaced p.latest ne;
          latest = refl;
        } in
        elim (Bool-cases (ltb 0 (net.connect (length link.attempts)))) [
          | inl made ↦ rw (down, first, made) (transmit-IsPaced net (tried net link ts) line p')
          | inr lost ↦ rw (down, first, lost) p'
        ]
  ]
]

module _ (F : Float) (show : Float.D F → Text) where
  open F use {D}

  -- the line of a sample: `prefix.host.key value ts`
  abbrev pub line : Poll F → Text × D → Text
  line poll s =
      (poll.prefix ++ (bytes "." ++ poll.host))
      ++ (bytes "."
          ++ (s.0 ++ (bytes " " ++ (show s.1 ++ (bytes " " ++ (decimal poll.ts ++ (10 ∷ [])))))))

  module _ (net : Net) where
    dump_normalized-line :
        (poll : Poll F) (link : Link) (s : Text × D)
        → length (line poll s) + 1 < 2 ^ 31
        → dump_normalized F show net poll link poll.ts s.0 s.1
          ≡ ok (after net link (line poll s) poll.ts, true)
    unfolding dump_normalized
    dump_normalized-line poll link s short =
        let head = poll.prefix ++ (bytes "." ++ poll.host) in
        let tail =
          bytes "."
          ++ (s.0 ++ (bytes " " ++ (show s.1 ++ (bytes " " ++ (decimal poll.ts ++ (10 ∷ [])))))) in
        let size = length-append head tail in
        let (b1, first, a1) = printf-Appends head reset-IsValid (omega arith) (omega arith) in
        let full : length (contents b1) ≡ b1.len = length-contents a1.valid in
        let (b2, second, a2) =
          printf-Appends tail a1.valid (omega (arith, full, ap length a1.appended)) (omega arith) in
        let whole : contents b2 ≡ line poll s = a2.appended ∙ ap (λ t. t ++ tail) a1.appended in
        rw (first, second, whole, carbon_send-after net link (line poll s) poll.ts) refl

    -- the link after a row of samples
    pub sends : Poll F → List (Text × D) → Link → Link
    sends poll [] link = link
    sends poll (s ∷ ss) link = sends poll ss (after net link (line poll s) poll.ts)

    report-sends :
        (poll : Poll F) (ss : List (Text × D)) (link : Link)
        → All (λ s. length (line poll s) + 1 < 2 ^ 31) ss
        → report F (dump_normalized F show net poll) poll.ts ss link ≡ ok (sends poll ss link, true)
    unfolding report sends
    report-sends poll [] link h = refl
    report-sends poll (s ∷ ss) link h =
        rw (dump_normalized-line poll link s h.0)
          (report-sends poll ss (after net link (line poll s) poll.ts) h.1)

    dump-sends :
        (poll : Poll F) (link : Link)
        → ((v : Histo.Value) → poll.value ≡ histo v → v.buckets_len ≢ 0)
        → All (λ s. length (line poll s) + 1 < 2 ^ 31) (samples F poll poll.value)
        → dump F show net link (metric poll) ≡ ok (sends poll (samples F poll poll.value) link)
    unfolding dump
    dump-sends poll link bounded short =
        rw
          (
            normalize-report F (dump_normalized F show net poll) poll link bounded,
            report-sends poll (samples F poll poll.value) link short,
          )
          refl

    sends-IsPaced :
        (poll : Poll F) (ss : List (Text × D)) (link : Link)
        → IsPaced link
        → IsPaced (sends poll ss link)
    unfolding sends
    sends-IsPaced poll [] link p = p
    sends-IsPaced poll (s ∷ ss) link p =
        sends-IsPaced poll ss _ (after-IsPaced net link (line poll s) poll.ts p)

    -- Whatever the network answers, a metric, with bounds if it is a histogram, whose lines have
    -- lengths that fit an int with one more, is dumped without an abort, and if no two attempts to
    -- connect in a row were at the same timestamp and the last one is kept, this stays so.
    pub dump-IsPaced :
        (poll : Poll F) (link : Link)
        → ((v : Histo.Value) → poll.value ≡ histo v → v.buckets_len ≢ 0)
        → All (λ s. length (line poll s) + 1 < 2 ^ 31) (samples F poll poll.value)
        → IsPaced link
        → (link' : Link) × (dump F show net link (metric poll) ≡ ok link') × IsPaced link'
    dump-IsPaced poll link bounded short p = (
      sends poll (samples F poll poll.value) link,
      dump-sends poll link bounded short,
      sends-IsPaced poll (samples F poll poll.value) link p,
    )

    -- what a row of lines makes of a link that sends each whole
    abbrev pub delivered : List Text → Link → Link
    delivered ls link = record link { lines = link.lines ++ ls; stream = link.stream ++ concat ls }

    line_long : (poll : Poll F) (s : Text × D) → ltb 0 (length (line poll s)) ≡ true
    line_long poll s =
        let head = poll.prefix ++ (bytes "." ++ poll.host) in
        let tail =
          bytes "."
          ++ (s.0 ++ (bytes " " ++ (show s.1 ++ (bytes " " ++ (decimal poll.ts ++ (10 ∷ [])))))) in
        lt→ltb 0 (length (line poll s)) (omega (arith, length-append head tail))

    module _ (steady : (k : ℕ) (l : Text) → net.send k l ≡ sent (length l)) where
      transmit_steady :
          (link : Link) (l : Text)
          → ltb 0 (length l) ≡ true
          → transmit net link l ≡ delivered (l ∷ []) link
      unfolding transmit
      transmit_steady link l long =
          rw
            (
              steady (length link.lines) l,
              transmit,
              long,
              ==_refl (length l),
              take_all (length l) l (omega arith),
              append-nil,
            )
            refl

      sends_steady :
          (poll : Poll F) (ss : List (Text × D)) (link : Link)
          → link.carbon.fd ≢ 0
          → sends poll ss link ≡ delivered (map (line poll) ss) link
      unfolding sends
      sends_steady poll [] link up =
          ap₂ (λ t u. record link { lines = t; stream = u }) (sym (append-nil link.lines))
            (sym (append-nil link.stream))
      sends_steady poll (s ∷ ss) link up =
          let next = delivered (line poll s ∷ []) link in
          let one : after net link (line poll s) poll.ts ≡ next =
            rw (ne→not-== link.carbon.fd 0 up)
              (transmit_steady link (line poll s) (line_long poll s)) in
          ap (sends poll ss) one
          ∙ sends_steady poll ss next up
          ∙ ap₂ (λ t u. record link { lines = t; stream = u })
              (append_assoc link.lines (line poll s ∷ []) (map (line poll) ss))
              (ap (λ x. (link.stream ++ x) ++ concat (map (line poll) ss))
                  (append-nil (line poll s))
                ∙ append_assoc link.stream (line poll s) (concat (map (line poll) ss)))

      -- While there is a connection and every line is sent whole, a metric, with bounds if it is a
      -- histogram, whose lines have lengths that fit an int with one more, goes out without an
      -- abort as one line for each of its samples, in order, behind what went out before, and
      -- nothing else changes.
      pub dump-lines :
          (poll : Poll F) (link : Link)
          → ((v : Histo.Value) → poll.value ≡ histo v → v.buckets_len ≢ 0)
          → All (λ s. length (line poll s) + 1 < 2 ^ 31) (samples F poll poll.value)
          → link.carbon.fd ≢ 0
          → dump F show net link (metric poll)
            ≡ ok (delivered (map (line poll) (samples F poll poll.value)) link)
      dump-lines poll link bounded short up =
          dump-sends poll link bounded short
          ∙ ap (λ l. ok l) (sends_steady poll (samples F poll poll.value) link up)
