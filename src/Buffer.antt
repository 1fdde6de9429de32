-- ===== src/Buffer.antt =====
-- src/utils/buffer.c: a byte buffer that grows by doubling.
pub mod Contents
mod Tests
use optics.Base.{
  ℕ, ◌+◌, ◌-◌, ◌*◌, ◌%◌, ◌^◌, List, [], ◌∷◌, ◌++◌, Option, none, some, take, set, length, replicate,
  copy_at, ltb, ◌==◌, ◌&&◌, if◌then◌else◌, Run, ok, abort, double_until,
}

abbrev pub min_cap : ℕ
min_cap = 128

-- `struct buffer`; `bytes` is the block that `data` points to, empty for NULL.
pub record Buffer : Type 0 where
  pub bytes : List ℕ
  pub len : ℕ
  pub cap : ℕ

-- `buffer_reset`, also the zeroed struct that a buffer starts as
abbrev pub reset : Buffer
reset = record { bytes = []; len = 0; cap = 0 }

-- `malloc` or `realloc` to `n` bytes: the old bytes, then bytes that are not yet written. Those are
-- zero here; the code never reads them.
pub regrow : List ℕ → ℕ → List ℕ
regrow bytes n = take n bytes ++ replicate (n - length bytes) 0

-- the capacity that `buffer_reserve` sets
unfoldable pub grown : ℕ → ℕ → ℕ
grown cap len = double_until 64 len (if cap == 0 then min_cap else cap)

-- `buffer_reserve`
unfoldable pub reserve : Buffer → ℕ → Buffer
unfolding regrow
reserve b len =
    if ltb len b.cap
    then b
    else let cap = grown b.cap len in record b { bytes = regrow b.bytes cap; cap = cap }

-- `buffer_put`
unfoldable pub put : Buffer → ℕ → Buffer
put b c =
    let b' = reserve b (b.len + 1) in record b' { bytes = set b'.bytes b'.len c; len = b'.len + 1 }

-- `buffer_write`
unfoldable pub write : Buffer → List ℕ → Buffer
write b src =
    let b' = reserve b (b.len + length src) in
    record b' { bytes = copy_at b'.bytes b'.len src; len = b'.len + length src }

-- C's `vsnprintf(dst + pos, avail, ...)` where the whole text is `s`
unfoldable pub vsnprintf : List ℕ → ℕ → ℕ → List ℕ → List ℕ
vsnprintf dst pos avail s =
    if avail == 0 then dst else copy_at dst pos (take (avail - 1) s ++ (0 ∷ []))

-- the second attempt of `buffer_printf`, once the first was cut
unfoldable pub rewrite : Buffer → List ℕ → Buffer
rewrite b s =
    let b' = reserve b (b.len + length s + 1) in
    record b' { bytes = vsnprintf b'.bytes b'.len (b'.cap - b'.len) s }

unfoldable pub retry : Buffer → List ℕ → Buffer
retry b s = if ltb 0 (length s) && ltb (b.cap - b.len) (length s + 1) then rewrite b s else b

-- `buffer_printf`; the text that the format makes of its arguments, or `none` for an output error,
-- which `vsnprintf` reports by a negative number. Its length is an `int`: a text of 2^31 bytes or more
-- is such an error too, and one of 2^31 - 1 bytes, at which the sum with 1 overflows, is an abort here.
unfoldable pub printf : Buffer → Option (List ℕ) → Run Buffer
printf b none = abort
printf b (some s) =
    let first = record b { bytes = vsnprintf b.bytes b.len (b.cap - b.len) s } in
    let last = retry first s in
    if ltb (length s + 1) (2 ^ 31) then ok (record last { len = last.len + length s }) else abort
