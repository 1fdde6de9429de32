-- ===== src/Lib.antt =====
-- Optics, a library that records metrics in shared memory and polls them.
--
-- The program. A process creates a region of shared memory (src/region.c), which an allocator with
-- size classes cuts into blocks (src/alloc.c). A block holds a lens: a counter, a gauge, a
-- distribution, a histogram or a quantile, with its name (src/lens.c, src/lens_*.c). The lenses are
-- in a doubly linked list, and a hash table finds them by name (src/optics.c, src/utils/htable.c).
-- Every lens keeps its values twice, for the two epochs: recorders write into the current one while
-- the poller empties the other. The poller merges the values by key and gives them to back-ends,
-- which build names with src/utils/key.c and text with src/utils/buffer.c: one sends lines over a
-- connection, another answers requests over a small HTTP server (src/utils/crest).
--
-- The files.
--   Base      lists, options, outcomes with aborts, doubling loops, powers of two
--   Key       src/utils/key.c: `push`, `pushf` and `pop` are optics_key_push and so on; Key/Text has
--             the text that a key holds
--   Buffer    src/utils/buffer.c: `reserve`, `put`, `write` and `printf`; Buffer/Contents
--   Htable    src/utils/htable.c: one function for each htable_ operation and one for each of their
--             loops; Htable/Table reads a table as a map, Htable/Probe, Write, Resize, Cases and Ops
--             relate the operations to it, Htable/Room is about termination,
--             Htable/Next about the walk with htable_next, Htable/Owned about values that are
--             pointers to what the caller keeps
--   Bits      src/utils/bits.h; Bits/Rounding
--   Region    src/region.c: the files by their names, the length, the end and the mappings of a
--             region, with their addresses; Region/Grow
--   Alloc     src/alloc.c: the heads of the free lists and the words of the region; Alloc/Classes has
--             the size classes, Alloc/Lists, Take, Free and Fill the free lists
--   Lens      src/lens_counter.c, lens_gauge.c, lens_histo.c, lens_quantile.c and lens_dist.c, each a
--             module
--   Optics    src/optics.c and src/lens.c: the list of lenses and the deferred blocks; the lenses by
--             name are in Optics/Registry and Optics/Names, the list in Optics/Links, deferral in
--             Optics/Deferred. Optics/Space is the interface of the allocator, which Alloc meets;
--             Optics/Session is the creation of a region, its opening and its close, and
--             Optics/Pushes the lock-free list of deferred blocks, as atomic steps
--   Crest     src/utils/crest/path.c and router.c: the tokens of a path, and the tree that routes them
--             (Crest/Router/Add). Request, Response and Process are req.c, resp.c and the callback
--             of a resource in crest.c; Server is the callback of the HTTP library, its deliveries
--             being in Server/Delivery
--   Poller    src/poller.c, and in its children src/poller_poll.c: Values keeps the values by key,
--             Merge relates them to the reads of the lenses, Poll is the walk of the regions of
--             src/utils/shm.c and a poll (Delivery, Limits). Normalize is optics_poll_normalize of
--             src/optics.c with the normalisation callback of each lens. Recording has
--             the calls that record a value, next to a poll of the other epoch (Recording/Epochs,
--             and the lemmas on each type in Recording/Buckets and Recording/Estimate)
--   Backend   Carbon is src/backend_carbon.c, and Rest is src/backend_rest.c: the metrics that it
--             publishes (Rest/Published) and the text that it answers (Rest/Json), an object of
--             Rest/Object
--   Lock      the spin lock of src/utils/lock.h as a step relation (Lock/Exclusion), and in
--             Lock/Barrier the barrier for as many threads as its target (Meeting, Leaving)
--   Time      src/utils/time.c, and the timer of src/optics.h
--
-- Conventions. A machine word is a natural number below 2^64, with its wrap-around written out. An
-- operation that may fail an assertion is in `Run`, whose `abort` is the end of the process. A C
-- string is the list of its bytes before the nil byte. A double is a value of the record `Float` of
-- Lens/Float: the lenses use the operations of the type and no more. Random choices, and the answers
-- of the operating system, of the network and of the HTTP library, are arguments. The callback of a
-- back-end or of a resource is a function over a state that all of them share.
--
-- Bounds and fuel. A doubling loop has 64 rounds, since a word doubles 64 times at most before it
-- wraps. The loops over a list take fuel, and their theorems ask for one unit for each node and one
-- more. A resize and a put of the table take fuel for their calls of themselves, which need not end
-- for every choice of hashes; theorems say when one call is enough. An allocation of a table that is
-- too large does not return. A poll has one fuel for the table of values and for the lists of lenses,
-- and its theorem is about the polls whose reads end.
--
-- Not modelled. Apart from the locks of src/utils/lock.h and the list of deferred blocks in
-- Optics/Pushes, operations run one after the other: the push of a freed block is that of a single
-- thread, and so is the push of a deferred one where it is next to the allocator. Lenses and the nodes
-- of deferred blocks are kept by their offsets, apart from the words of the allocator, so a read of a
-- block after its release is not seen. An allocation of the C library that fails is left out. So are
-- the calls of the operating system and their logs, the generator of random numbers, the thread that
-- polls in a loop, the back-end of the standard output and the command line of the daemon.
pub mod Base
pub mod Key
pub mod Buffer
pub mod Htable
pub mod Bits
pub mod Region
pub mod Alloc
pub mod Lens
pub mod Optics
pub mod Poller
pub mod Backend
pub mod Crest
pub mod Lock
pub mod Time
