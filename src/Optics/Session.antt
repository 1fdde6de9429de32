-- ===== src/Optics/Session.antt =====
-- src/optics.c: how a process creates a region, and how another one opens it.
pub mod Shared
use optics.Base.{
  ℕ, ◌+◌, ◌*◌, ◌<◌, ◌≤◌, ◌^◌, ◌≡◌, Bool, true, false, not, List, [], ◌∷◌, Option, none, some, Text,
  length, ltb, leb, ◌==◌, if◌then◌else◌, Run, ok, ◌>>◌, assert,
}
use optics.Htable
use optics.Region
use optics.Region.{Region, Os, Files, keep, create, open_at, ptr, ptr_unsafe}
use optics.Alloc
use optics.Alloc.{Heap, init}
use optics.Optics.{Optics, LensType, counter, set_prefix}

abbrev pub magic : ℕ
magic = 0x044b33f12afe7de0

abbrev pub version : ℕ
version = 2

-- the size of `struct optics_header`
abbrev pub optics_header_len : ℕ
optics_header_len = 656

-- `struct optics` of one process, with what it maps: the first words of the header, and the rest
pub record Session : Type 0 where
  pub magic_word : ℕ
  pub version_word : ℕ
  pub optics : Optics Heap

abbrev pub region_of : Session → Region
region_of s = s.optics.space.region

-- a region of zeros
abbrev pub zeroed : Region → Optics Heap
zeroed r = record {
  space = init r (λ off. 0);
  keys = Htable.reset;
  epoch = 0;
  epoch_last_inc = 0;
  defers = λ e. 0;
  lens_head = 0;
  prefix = [];
  lenses = λ off. record {
    off = 0;
    type = counter;
    lens_len = 0;
    name_len = 0;
    next = 0;
    prev = 0;
    name = [];
  };
  nodes = λ off. record { off = 0; len = 0; next = 0 };
}

-- the header that `optics_create_at` fills in, once it is mapped
unfoldable pub fill_header : Region → Text → ℕ → Option Session
fill_header r name now =
    let (o, done) = set_prefix (zeroed r) name in
    if done
    then some (record {
      magic_word = magic;
      version_word = version;
      optics = record o { epoch_last_inc = now };
    })
    else none

-- `optics_create_at`, with the files that it leaves: the header stands in the file of the region,
-- and where the header is refused, the owner's `region_close` unlinks the file
unfoldable pub create_at : Os → Files Session → Text → ℕ → Files Session × Option Session
unfolding fill_header
create_at os files name now =
    let (files', made) = create os files name optics_header_len in
    elim made [
      | none ↦ (files', none)
      | some (r, full) ↦ elim (ptr_unsafe r 0 optics_header_len) [
        | none ↦ (files', none)
        | some _ ↦ elim (fill_header r name now) [
          | none ↦ (files', none)
          | some s ↦ (keep files' full (some s), some s)
        ]
      ]
    ]

-- `optics_open`, of the file that has the name: the words are those of the file, and the mapping and
-- the table of keys are the process's own
unfoldable pub attach : Os → Files Session → Text → Option Session
attach os files name = elim (open_at os files name) [
  | none ↦ none
  | some (r, file) ↦ elim (ptr r 0 optics_header_len) [
    | none ↦ none
    | some _ ↦
        if not (file.magic_word == magic)
        then none
        else if not (file.version_word == version)
        then none
        else some (record file {
          optics = record file.optics {
            space = record file.optics.space { region = r };
            keys = Htable.reset;
          };
        })
  ]
]

-- `optics_close`: whether the lock was free, and what `region_close` meets; its answer is dropped
unfoldable pub close : Bool → List Bool → Bool → Bool → Session → Run Bool
close free unmapped closed unlinked s =
    assert free >> ok (Region.close unmapped closed unlinked (region_of s))
