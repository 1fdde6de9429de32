-- ===== src/Poller/Tests.antt =====
-- Polls of one region with one counter.
use optics.Base.{
  ℕ, ◌≡◌, refl, true, false, List, [], ◌∷◌, ◌++◌, some, bytes, replicate, ok, double_until,
}
use optics.Key
use optics.Htable
use optics.Htable.{vacant}
use optics.Lens.Float.{whole}
use optics.Lens.Counter
use optics.Optics.{
  Optics, Header, LensType, at, foreach_lens, epoch_inc, epoch_of, epoch_inc_at, free_nodes,
}
use optics.Optics.Space.{Allocator}
use optics.Poller.{Poller, Backend, Event}
use optics.Poller.Values.{Value, Cell, Poll, Context, Chance, Cells, poll_lens, zeroed}
use optics.Poller.Poll.{Item, poll_items, turn_epochs, poll_optics}
use optics.Poller.Delivery.{Polled, no_values, poll_found-Polled}
use optics.Lens.Histo
use optics.Poller.Recording.{histo, histo_inc, record_then_read, read_then_record}
use optics.Poller.Recording.Epochs.{epoch_inc-Commute}

abbrev never : Chance whole
never = record {
  sort = λ n xs. xs;
  draws = λ off. record { index = λ i. 0; hit = λ i. false };
  prob = λ off k p. false;
  locked = λ off. false;
}

-- every byte can be reached, and nothing is kept of the blocks
abbrev flat : Allocator (Unit {0})
flat = record { alloc = λ s n. ok (tt, 0); free = λ s off len. ok tt; reaches = λ s off len. true }

abbrev lens : Header
lens = record {
  off = 640;
  type = LensType.counter;
  lens_len = 16;
  name_len = 2;
  next = 0;
  prev = 0;
  name = bytes "m";
}

abbrev ctx : Context whole
ctx = record { ts = 9; elapsed = 2; host = bytes "h"; prefix = bytes "p"; epoch = 0 }

abbrev cells : ℕ → Cells whole
cells n off = Cell.counter (record { value0 = n; value1 = 7 })

-- the key "p.h.m" with the value of the counter
abbrev polled : ℕ → Poll whole
polled n = record {
  host = bytes "h";
  prefix = bytes "p";
  key = bytes "m";
  value = Value.counter n;
  ts = 9;
  elapsed = 2;
}

abbrev table : Htable.Htable
table = record {
  len = 1;
  cap = 8;
  table =
      replicate 0 vacant ++ (record { key = some (bytes "p.h.m"); value = 0 } ∷ replicate 7 vacant);
}

-- the region before and after a turn of its epoch at time 9
abbrev region : ℕ → ℕ → (ℕ → ℕ) → Optics (Unit {0})
region epoch last defers = record {
  space = tt;
  keys = Htable.reset;
  epoch = epoch;
  epoch_last_inc = last;
  defers = defers;
  lens_head = 640;
  prefix = bytes "p";
  lenses = λ off. lens;
  nodes = λ off. record { off = 0; len = 0; next = 0 };
}

abbrev before : Item whole flat
before = record {
  shared = record { optics = region 0 7 (λ e. 0); cells = cells 5 };
  last_poll = 0;
  epoch = 0;
}

abbrev after : Item whole flat
after = record {
  shared = record {
    optics = region 1 9 (at (λ e. 0) 1 0);
    cells = at (cells 5) 640 (Cell.counter (record { value0 = 0; value1 = 7 }));
  };
  last_poll = 7;
  epoch = 0;
}

-- a back-end that keeps its events
abbrev recorder : List (Event (Poll whole)) → Backend (Poll whole) (List (Event (Poll whole)))
recorder seen = record { ctx = seen; cb = λ seen e. seen ++ (e ∷ []) }

abbrev poller : List (Event (Poll whole)) → Poller (Poll whole) (List (Event (Poll whole)))
poller seen = record { host = bytes "h"; backends = recorder seen ∷ [] }

abbrev turned : Item whole flat
turned = record after { shared = record { optics = after.shared.optics; cells = cells 5 } }

turn_epochs_run : turn_epochs whole flat 2 9 (before ∷ []) ≡ ok (turned ∷ [])
unfolding turn_epochs epoch_inc_at free_nodes
turn_epochs_run = refl

poll_items_run :
    poll_items whole flat 2 (λ i. never) (bytes "h") 9 0 (turned ∷ []) (no_values whole)
    ≡ ok (after ∷ [], record { table = table; polls = polled 5 ∷ [] })
unfolding poll_items poll_optics poll_lens Key.push Htable.get Htable.resize Htable.allocates
    Htable.grown double_until Htable.rehash Htable.probe Htable.slot Htable.hash Htable.put
    Htable.probe_put zeroed Counter.read foreach_lens
poll_items_run = refl

poll_found-Polled_example :
    Polled whole flat 2
      (λ i. never)
      (poller [])
      9
      (before ∷ [])
      (after ∷ [])
      (record { table = table; polls = polled 5 ∷ [] })
poll_found-Polled_example =
    poll_found-Polled whole flat 2 (λ i. never) (poller []) 9 (before ∷ []) turn_epochs_run
      poll_items_run

-- a histogram with a value in each epoch
abbrev buckets : Histo.Histo
buckets = record {
  epoch0 = record Histo.empty { below = 1 };
  epoch1 = record Histo.empty { counts = 0 ∷ 2 ∷ [] };
  buckets = 1 ∷ 5 ∷ 9 ∷ [];
  buckets_len = 3;
}

abbrev seen : Histo.Value
seen = record { buckets_len = 0; buckets = []; totals = Histo.empty }

abbrev opened : Optics (Unit {0})
opened = record (region 1 7 (λ e. 0)) { defers = at (λ e. 0) 1 0 }

epoch_inc_run : epoch_inc flat 2 (region 0 7 (λ e. 0)) ≡ ok (opened, 0)
unfolding epoch_inc free_nodes
epoch_inc_run = refl

epoch_inc-Commute_example :
    record_then_read whole never 640
      (epoch_of flat opened)
      0
      (histo_inc 6)
      (Cell.histo buckets)
      (Value.histo seen)
    ≡ read_then_record whole never 640
        (epoch_of flat opened)
        0
        (histo_inc 6)
        (Cell.histo buckets)
        (Value.histo seen)
epoch_inc-Commute_example =
    epoch_inc-Commute whole flat 2 (region 0 7 (λ e. 0)) never 640 epoch_inc_run histo
