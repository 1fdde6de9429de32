-- ===== src/Optics/Tests.antt =====
-- A region whose allocator hands out ever higher offsets, and logs what is released.
use optics.Base.{
  none, false, ℕ, ◌+◌, ◌%◌, ◌^◌, ◌≡◌, refl, List, [], ◌∷◌, true, false, some, arith, ok, ◌==◌,
  if◌then◌else◌, All, Text, map, replicate, double_until, str_eq,
}
use optics.Htable
use optics.Htable.{Htable, vacant}
use optics.Htable.Table.{same}
use optics.Htable.Resize.{IsValid, view, reset-IsValid}
use optics.Htable.Cases.{insert}
use optics.Region.{Os, Files}
use optics.Optics.Session.{Session, create_at, attach, region_of}
use optics.Optics.Session.Shared.{file_name, attach-create_at}
use optics.Optics.Space.{Allocator, Laws}
use optics.Optics.{
  Optics, Header, Status, optics_ok, optics_break, counter, at, lens_ptr, set_next, push_lens,
  remove_lens, foreach_lens, defer_free, epoch_inc,
}
use optics.Optics.Registry.{publish, lens_get}
use optics.Optics.Links.{Linked, Distinct}
use optics.Optics.Links.Push.{push_lens-Linked}
use optics.Optics.Links.Remove.{remove_lens-Linked}
use optics.Optics.Links.Visit.{visit, foreach_lens-visit}
use optics.Optics.Names.{granted, publish-view}
use optics.Optics.Deferred.{Waiting, Deferring, epoch_inc-Deferring, defer_free-Deferring}

record Log : Type 0 where
  top : ℕ
  freed : List (ℕ × ℕ)

abbrev bump : Allocator Log
bump = record {
  alloc = λ s n. ok (record s { top = s.top + n }, s.top);
  free = λ s off len. ok (record s { freed = (off, len) ∷ s.freed });
  reaches = λ s off len. true;
}

bump-Laws : Laws bump
bump-Laws = record { free-reaches = λ off len x n run. refl }

-- block 200 waits since this epoch, and 300 since the one before
abbrev waiting : Optics Log
waiting = record {
  space = record { top = 1000; freed = [] };
  keys = Htable.reset;
  epoch = 6;
  epoch_last_inc = 0;
  defers = λ e. if e == 0 then 500 else 600;
  lens_head = 0;
  prefix = [];
  lenses = λ x. record {
    off = x;
    type = counter;
    lens_len = 16;
    name_len = 4;
    next = 0;
    prev = 0;
    name = [];
  };
  nodes = λ x.
      if x == 500
      then record { off = 200; len = 84; next = 0 }
      else record { off = 300; len = 90; next = 0 };
}

abbrev now : List Waiting
now = record { node = 500; off = 200; len = 84 } ∷ []

abbrev before : List Waiting
before = record { node = 600; off = 300; len = 90 } ∷ []

waiting-Deferring : Deferring bump waiting now before
waiting-Deferring = record {
  of_now = (refl, omega arith, refl, refl, refl);
  of_before = (refl, omega arith, refl, refl, refl);
  reached_now = (refl, tt);
  reached_before = (refl, tt);
}

abbrev released : Log
released = record { top = 1000; freed = (600, 24) ∷ (300, 90) ∷ [] }

epoch_inc-Deferring_example :
    (o : Optics Log) × (epoch_inc bump 2 waiting ≡ ok (o, 0))
    × (o.space ≡ released)
    × (o.epoch ≡ (waiting.epoch + 1) % 2 ^ 64)
    × Deferring bump o [] now
epoch_inc-Deferring_example =
    epoch_inc-Deferring bump bump-Laws 2 now before waiting-Deferring (omega arith) refl

defer_free-Deferring_example :
    (o : Optics Log) × (defer_free bump waiting 400 70 ≡ ok (o, true))
    × (o.space ≡ record { top = 1024; freed = [] })
    × (o.epoch ≡ waiting.epoch)
    × Deferring bump o (record { node = 1000; off = 400; len = 70 } ∷ now) before
defer_free-Deferring_example =
    defer_free-Deferring bump now before 400 70 1000 waiting-Deferring refl (omega arith)
      (refl, (refl, tt)) (refl, tt) (omega arith, tt) (omega arith, tt)

abbrev cpu : Text
cpu = b'c' ∷ b'p' ∷ b'u' ∷ []

abbrev lens_at : ℕ → ℕ → ℕ → Header
lens_at off next prev = record {
  off = off;
  type = counter;
  lens_len = 16;
  name_len = 4;
  next = next;
  prev = prev;
  name = cpu;
}

-- three lenses in the list, and others that are not
abbrev three : Optics Log
three = record waiting {
  lens_head = 640;
  lenses = λ x.
      if x == 640
      then lens_at 640 704 0
      else if x == 704
      then lens_at 704 768 640
      else if x == 768
      then lens_at 768 0 704
      else lens_at x 0 0;
}

three-Linked : Linked three.lenses 0 three.lens_head (640 ∷ 704 ∷ 768 ∷ [])
three-Linked = (
  refl,
  omega arith,
  refl,
  refl,
  (refl, omega arith, refl, refl, (refl, omega arith, refl, refl, refl)),
)

three-Distinct : Distinct (640 ∷ 704 ∷ 768 ∷ [])
three-Distinct = ((omega arith, (omega arith, tt)), ((omega arith, tt), (tt, tt)))

three-reached : All (λ y. lens_ptr bump three y ≡ true) (640 ∷ 704 ∷ 768 ∷ [])
unfolding lens_ptr
three-reached = (refl, (refl, (refl, tt)))

push_lens-Linked_example :
    (o : Optics Log) × (push_lens bump three 896 ≡ ok o)
    × Linked o.lenses 0 o.lens_head (896 ∷ 640 ∷ 704 ∷ 768 ∷ [])
push_lens-Linked_example =
    push_lens-Linked bump three 896 (640 ∷ 704 ∷ 768 ∷ []) three-Linked three-Distinct three-reached
      (omega arith, (omega arith, (omega arith, tt))) (omega arith) refl refl

remove_lens-Linked_example :
    (o : Optics Log) × (remove_lens bump three 704 ≡ ok o)
    × Linked o.lenses 0 o.lens_head (640 ∷ 768 ∷ [])
remove_lens-Linked_example =
    remove_lens-Linked bump three 704 (640 ∷ []) (768 ∷ []) three-Linked three-Distinct
      three-reached

-- collects the offsets of the lenses, and stops at 704
abbrev collect : List ℕ → Header → List ℕ × Status
collect c l = (l.off ∷ c, if l.off == 704 then optics_break else optics_ok)

foreach_lens-visit_example :
    foreach_lens bump 4 three collect []
    ≡ ok (visit collect [] (map three.lenses (640 ∷ 704 ∷ 768 ∷ [])))
foreach_lens-visit_example =
    foreach_lens-visit bump collect 4 three [] (640 ∷ 704 ∷ 768 ∷ []) three-Linked three-reached
      (omega arith)

abbrev unlisted : Optics Log
unlisted = record three { lens_head = 0 }

abbrev one_key : Htable
one_key = record {
  len = 1;
  cap = 8;
  table = vacant ∷ record { key = some cpu; value = 896 } ∷ replicate 6 vacant;
}

abbrev listed : Optics Log
listed = record unlisted {
  keys = one_key;
  lens_head = 896;
  lenses = at unlisted.lenses 896 (lens_at 896 0 0);
}

publish_run : publish bump 1 unlisted 896 ≡ ok (listed, some 896)
unfolding publish push_lens set_next Htable.put Htable.resize Htable.grown double_until
    Htable.allocates Htable.rehash Htable.hash Htable.probe_put Htable.slot
publish_run = refl

publish-view_example :
    IsValid one_key
    × (some 896 ≡ granted 896 (view Htable.reset cpu))
    × ((q : Text)
        → view one_key q
          ≡ (if same cpu q then insert 896 (view Htable.reset cpu) else view Htable.reset q))
publish-view_example = publish-view bump 1 unlisted 896 reset-IsValid publish_run

get_run : lens_get bump 1 listed cpu ≡ ok (listed, some 896)
unfolding lens_get Htable.get Htable.resize Htable.hash Htable.probe Htable.slot str_eq lens_ptr
get_run = refl

one_key-IsValid : IsValid one_key
one_key-IsValid = (publish-view bump 1 unlisted 896 reset-IsValid publish_run).0

-- every call succeeds, on a file of one megabyte
abbrev working : Os
working = record {
  unlinked = true;
  opened = true;
  truncated = true;
  file_len = some 1048576;
  mapped = true;
  address = 4096;
}

attach-create_at_example :
    (files : Files Session) × (s t : Session) × (create_at working (λ q. none) cpu 9
      ≡ (files, some s))
    × (attach working files cpu ≡ some t)
    × ((q : Text) → str_eq q (file_name cpu) ≡ false → files q ≡ none)
    × (s.optics.prefix ≡ cpu)
    × (t.optics.prefix ≡ cpu)
    × (t.optics.epoch_last_inc ≡ 9)
    × ((region_of s).owned ≡ true)
    × ((region_of t).owned ≡ false)
attach-create_at_example =
    attach-create_at working working 1048576 1048576 (λ q. none) cpu 9 (omega arith)
      (refl, refl, refl, refl, refl) (refl, refl, refl, refl, refl) (omega arith)
