-- ===== src/Htable.antt =====
-- src/utils/htable.c and htable.h: an open-addressing table whose probes stay in a window of eight
-- buckets, and that grows when a window is full.
pub mod Probe
pub mod Table
pub mod Write
pub mod Resize
pub mod Cases
pub mod Ops
pub mod Room
pub mod Next
pub mod Owned
mod Tests
use optics.Base.{
  ℕ, zero, suc, ◌+◌, ◌-◌, ◌*◌, ◌%◌, ◌^◌, bit_xor, Bool, true, false, List, [], ◌∷◌, Option, none,
  some, Text, str_eq, take, set, get_or, replicate, ltb, leb, ◌==◌, ◌&&◌, if◌then◌else◌,
  double_until,
}

abbrev pub key_max_len : ℕ
key_max_len = 1024

abbrev pub probe_window : ℕ
probe_window = 8

-- `struct htable_bucket`; no key stands for NULL
pub record Bucket : Type 0 where
  pub key : Option Text
  pub value : ℕ

abbrev pub vacant : Bucket
vacant = record { key = none; value = 0 }

-- `struct htable`
pub record Htable : Type 0 where
  pub len : ℕ
  pub cap : ℕ
  pub table : List Bucket

-- `struct htable_ret`
pub record Ret : Type 0 where
  pub found : Bool
  pub value : ℕ

abbrev pub missing : Ret
missing = record { found = false; value = 0 }

-- A `char` is signed on AMD64, so a byte from 0x80 on is extended by ones.
abbrev extend : ℕ → ℕ
extend c = if ltb c 0x80 then c else c + 2 ^ 64 - 0x100

hash_from : ℕ → Text → ℕ
hash_from h [] = h
hash_from h (c ∷ cs) = hash_from (bit_xor h (extend c) * 0x100000001b3 % 2 ^ 64) cs

-- `htable_hash`: the loop stops at the nil byte or at the longest length of a key.
unfoldable pub hash : Text → ℕ
unfolding hash_from
hash key = hash_from 0xcbf29ce484222325 (take key_max_len key)

-- the index `(hash + i) % cap`
unfoldable pub slot : ℕ → ℕ → ℕ → ℕ
slot h i cap = (h + i) % 2 ^ 64 % cap

-- `!strncmp(bucket->key, key, htable_key_max_len)` for a bucket with a key
abbrev pub has : Text → Bucket → Bool
has key b = elim b.key [
  | none ↦ false
  | some k ↦ str_eq (take key_max_len k) (take key_max_len key)
]

abbrev pub is_vacant : Bucket → Bool
is_vacant b = elim b.key [ none ↦ true | some k ↦ false ]

abbrev pub bucket : List Bucket → ℕ → Bucket
bucket t j = get_or t j vacant

-- The loop that `htable_get`, `htable_xchg` and `htable_del` share: the index of the bucket that
-- holds the key, over the `n` probes from `i` on.
unfoldable pub probe : ℕ → List Bucket → ℕ → ℕ → ℕ → Text → Option ℕ
probe zero t cap h i key = none
probe (suc n) t cap h i key =
    let rest = probe n t cap h (i + 1) key in
    if has key (bucket t (slot h i cap)) then some (slot h i cap) else rest

-- The loop of `table_put`: the first vacant bucket.
unfoldable pub probe_vacant : ℕ → List Bucket → ℕ → ℕ → ℕ → Option ℕ
probe_vacant zero t cap h i = none
probe_vacant (suc n) t cap h i =
    let rest = probe_vacant n t cap h (i + 1) in
    if is_vacant (bucket t (slot h i cap)) then some (slot h i cap) else rest

-- `table_put`
unfoldable pub table_put : List Bucket → ℕ → Text → ℕ → Option (List Bucket)
table_put t cap key value = elim (probe_vacant probe_window t cap (hash key) 0) [
  | some j ↦ some (set t j (record { key = some key; value = value }))
  | none ↦ none
]

-- The loop of `htable_resize` over the old buckets; `none` where a window is full.
unfoldable pub rehash : List Bucket → List Bucket → ℕ → Option (List Bucket)
rehash [] fresh cap = some fresh
rehash (b ∷ bs) fresh cap = elim b.key [
  | none ↦ rehash bs fresh cap
  | some k ↦ elim (table_put fresh cap k b.value) [ none ↦ none | some t ↦ rehash bs t cap ]
]

-- the first capacity that `htable_resize` tries
unfoldable pub grown : ℕ → ℕ → ℕ
grown old cap = double_until 64 cap (if old == 0 then 1 else old)

-- `calloc` gives no block past `PTRDIFF_MAX` bytes, and `optics_assert_alloc` aborts then; a bucket
-- has 16 bytes. The capacity is 0 where the doubling wrapped, and in C that loop does not end.
unfoldable pub allocates : ℕ → Bool
allocates n = ltb 0 n && ltb (n * 16) (2 ^ 63)

-- `htable_resize`. It calls itself while windows are full, which need never end: the fuel counts
-- the calls, and `none` is a call that does not return.
unfoldable pub resize : ℕ → Htable → ℕ → Option Htable
resize zero ht cap = none
resize (suc fuel) ht cap =
    let new_cap = grown ht.cap cap in
    let again = resize fuel ht (new_cap * 2 % 2 ^ 64) in
    if leb cap ht.cap
    then some ht
    else if allocates new_cap
    then elim (rehash ht.table (replicate new_cap vacant) new_cap) [
      | none ↦ again
      | some t ↦ some (record ht { cap = new_cap; table = t })
    ]
    else none

-- `htable_reserve`
unfoldable pub reserve : ℕ → Htable → ℕ → Option Htable
reserve fuel ht items = resize fuel ht (items * 4 % 2 ^ 64)

-- `htable_reset`, also the zeroed struct that a table starts as
abbrev pub reset : Htable
reset = record { len = 0; cap = 0; table = [] }

-- the search that `htable_get`, `htable_xchg` and `htable_del` make once the table has a window
abbrev pub search_key : Htable → Text → Option ℕ
search_key ht key = probe probe_window ht.table ht.cap (hash key) 0 key

-- `htable_get`
unfoldable pub get : ℕ → Htable → Text → Option (Htable × Ret)
get fuel ht key = elim (resize fuel ht probe_window) [
  | none ↦ none
  | some ht' ↦ elim (search_key ht' key) [
    | some j ↦ some (ht', record { found = true; value = (bucket ht'.table j).value })
    | none ↦ some (ht', missing)
  ]
]

-- `htable_xchg`
unfoldable pub xchg : ℕ → Htable → Text → ℕ → Option (Htable × Ret)
xchg fuel ht key value = elim (resize fuel ht probe_window) [
  | none ↦ none
  | some ht' ↦ elim (search_key ht' key) [
    | some j ↦
        let b = bucket ht'.table j in
        some (
          record ht' { table = set ht'.table j (record b { value = value }) },
          record { found = true; value = b.value },
        )
    | none ↦ some (ht', missing)
  ]
]

-- `htable_del`
unfoldable pub del : ℕ → Htable → Text → Option (Htable × Ret)
del fuel ht key = elim (resize fuel ht probe_window) [
  | none ↦ none
  | some ht' ↦ elim (search_key ht' key) [
    | some j ↦
        let b = bucket ht'.table j in
        some (
          record ht' { len = ht'.len - 1; table = set ht'.table j (record b { key = none }) },
          record { found = true; value = b.value },
        )
    | none ↦ some (ht', missing)
  ]
]

-- what the loop of `htable_put` ends with
pub data Found : Type 0 where
  existing : ℕ → Found
  free : ℕ → Found
  full : Found

-- the loop of `htable_put`; `empty` is the first vacant bucket so far
unfoldable pub probe_put : ℕ → List Bucket → ℕ → ℕ → ℕ → Text → Option ℕ → Found
probe_put zero t cap h i key empty = elim empty [ none ↦ full | some j ↦ free j ]
probe_put (suc n) t cap h i key empty =
    let j = slot h i cap in
    let b = bucket t j in
    let first : Option ℕ = elim empty [ none ↦ some j | some e ↦ some e ] in
    let rest = probe_put n t cap h (i + 1) key (if is_vacant b then first else empty) in
    if has key b then existing j else rest

-- `htable_put`. It calls itself once the table has grown.
unfoldable pub put : ℕ → Htable → Text → ℕ → Option (Htable × Ret)
put zero ht key value = none
put (suc fuel) ht key value = elim (resize (suc fuel) ht probe_window) [
  | none ↦ none
  | some ht' ↦ elim (probe_put probe_window ht'.table ht'.cap (hash key) 0 key none) [
    | existing j ↦ some (ht', record { found = false; value = (bucket ht'.table j).value })
    | free j ↦
        let b : Bucket = record { key = some (take key_max_len key); value = value } in
        some (
          record ht' { len = ht'.len + 1; table = set ht'.table j b },
          record { found = true; value = 0 },
        )
    | full ↦ elim (resize (suc fuel) ht' (ht'.cap * 2 % 2 ^ 64)) [
      | none ↦ none
      | some ht'' ↦ put fuel ht'' key value
    ]
  ]
]

-- the loop of `htable_next` over the buckets from `i` on, of which `n` are left
unfoldable pub scan : ℕ → List Bucket → ℕ → Option ℕ
scan zero t i = none
scan (suc n) t i = let rest = scan n t (i + 1) in if is_vacant (bucket t i) then rest else some i

-- `htable_next` from index `i`: 0 where the caller passes NULL, else one past its bucket
unfoldable pub next : Htable → ℕ → Option ℕ
next ht i = scan (ht.cap - i) ht.table i

-- `htable_diff`. The first argument bounds the rounds; `fuel` is for the tables.
unfoldable pub diff_from : ℕ → ℕ → Htable → ℕ → Htable → Htable → Option (Htable × Htable)
diff_from zero fuel a i b result = none
diff_from (suc n) fuel a i b result = elim (next a i) [
  | none ↦ some (b, result)
  | some j ↦ elim ((bucket a.table j).key) [
    | none ↦ none
    | some k ↦ elim (get fuel b k) [
      | none ↦ none
      | some (b', r) ↦ elim r.found [
        | true ↦ diff_from n fuel a (j + 1) b' result
        | false ↦ elim (put fuel result k (bucket a.table j).value) [
          | none ↦ none
          | some (result', _) ↦ diff_from n fuel a (j + 1) b' result'
        ]
      ]
    ]
  ]
]

unfoldable pub diff : ℕ → Htable → Htable → Htable → Option (Htable × Htable)
diff fuel a b result = diff_from (a.cap + 1) fuel a 0 b result
