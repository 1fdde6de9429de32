-- ===== src/Backend/Tests.antt =====
-- One counter through the back-ends.
use optics.Base.{
  ℕ, ◌+◌, ◌<◌, ◌^◌, ◌≡◌, ◌≢◌, refl, Bool, true, List, [], ◌∷◌, ◌++◌, map, none, some, Text, bytes,
  replicate, length, arith, Run, ok, All,
}
use optics.Htable
use optics.Htable.{vacant}
use optics.Lens.Float.{whole}
use optics.Lens.Histo
use optics.Crest.Response.{Response, fresh}
use optics.Poller.{metric}
use optics.Poller.Values.{Value, Poll, histo}
use optics.Poller.Normalize.{decimal, normalize}
use optics.Poller.Normalize.Samples.{samples, report, normalize-report}
use optics.Backend.Carbon.{sent, Net, Link, dump}
use optics.Backend.Carbon.Lines.{line, delivered, IsPaced, Spaced, Latest, dump-IsPaced, dump-lines}
use optics.Backend.Rest.{Rest, items_of}
use optics.Backend.Rest.Published.{Published}
use optics.Backend.Rest.Object.{object, members, more, json, field}

-- six in two seconds
abbrev six : Poll whole
six = record {
  host = bytes "h";
  prefix = bytes "p";
  key = bytes "m";
  value = Value.counter 6;
  ts = 9;
  elapsed = 2;
}

no_histo : (v : Histo.Value) → six.value ≡ histo v → v.buckets_len ≢ 0
no_histo v e = cc

-- a callback that keeps the names
abbrev keep_names : List Text → ℕ → Text → ℕ → Run (List Text × Bool)
keep_names names ts name v = ok (names ++ (name ∷ []), true)

normalize-report_example :
    normalize whole keep_names six []
    ≡ report whole keep_names six.ts (samples whole six six.value) []
normalize-report_example = normalize-report whole keep_names six [] no_histo

-- it prints no more than a mark for a number
abbrev mark : ℕ → Text
mark n = bytes "#"

abbrev down : Link
down = record {
  carbon = record { fd = 0; last_attempt = 0 };
  attempts = [];
  lines = [];
  stream = [];
  partial = 0;
}

abbrev up : Link
up = record {
  carbon = record { fd = 5; last_attempt = 8 };
  attempts = 8 ∷ [];
  lines = [];
  stream = [];
  partial = 0;
}

-- every line goes out whole
abbrev live : Net
live = record { connect = λ k. 5; send = λ k l. sent (length l) }

-- no connection, and nothing goes out
abbrev dead : Net
dead = record { connect = λ k. 0; send = λ k l. sent 0 }

down-IsPaced : IsPaced down
unfolding Spaced Latest
down-IsPaced = record { spaced = tt; latest = tt }

short : All (λ s. length (line whole mark six s) + 1 < 2 ^ 31) (samples whole six six.value)
unfolding samples decimal
short = (omega arith, tt)

dump-IsPaced_example :
    (link : Link) × (dump whole mark dead down (metric six) ≡ ok link) × IsPaced link
dump-IsPaced_example = dump-IsPaced whole mark dead six down no_histo short down-IsPaced

dump-lines_example :
    dump whole mark live up (metric six)
    ≡ ok (delivered whole mark live (map (line whole mark six) (samples whole six six.value)) up)
dump-lines_example =
    dump-lines whole mark live (λ k l. refl) six up no_histo short (λ e. omega arith)

abbrev stale : Rest whole
stale = record { current = none; build = some (record { cap = 128; items = [] }) }

abbrev shown : Rest whole
shown = record {
  current =
      some (record {
        cap = 128;
        items = record { key = bytes "p.h.m"; value = Value.counter 6 } ∷ [];
      });
  build = none;
}

abbrev headed : Response
headed = record fresh {
  headers = record {
    len = 1;
    cap = 8;
    table =
        replicate 5 vacant
        ++ (record { key = some (bytes "content-type"); value = 0 } ∷ replicate 2 vacant);
  };
  copies = some (bytes "text/plain") ∷ [];
}

abbrev text : Text
text = object (map (field whole mark) (items_of whole shown.current))

text_run : text ≡ bytes "{\"p.h.m\":6}"
unfolding object members more json decimal
text_run = refl
