-- ===== src/Key.antt =====
-- src/utils/key.c: a dotted metric name in a buffer of fixed size.
pub mod Text
mod Tests
use optics.Base.{
  ℕ, ◌+◌, ◌-◌, List, [], ◌∷◌, ◌++◌, take, set, length, get_or, copy_at, ltb, leb, ◌==◌,
  if◌then◌else◌, Run, ok, ◌>>=◌, ◌>>◌, assert,
}

abbrev pub name_max_len : ℕ
name_max_len = 256

-- `struct optics_key`; `bytes` is the array `data`.
pub record Key : Type 0 where
  pub len : ℕ
  pub bytes : List ℕ

-- C's `strlcpy(dst + pos, src, size)`: at most `size - 1` bytes and a nil byte; it returns the
-- length of `src`. A C string is the list of its bytes before the nil byte.
unfoldable pub strlcpy : List ℕ → ℕ → List ℕ → ℕ → List ℕ × ℕ
strlcpy dst pos src size =
    (if size == 0 then dst else copy_at dst pos (take (size - 1) src ++ (0 ∷ [])), length src)

-- `key->data[key->len] = '.'; key->len++` of `optics_key_push`, unless the key is empty
dotted : Key → Key
dotted key =
    if key.len == 0 then key else record { len = key.len + 1; bytes = set key.bytes key.len b'.' }

-- the rest of `optics_key_push`
append : Key → List ℕ → Run Key
append key suffix =
    let (bytes, n) = strlcpy key.bytes key.len suffix (name_max_len - key.len) in
    let len = key.len + n in
    let len' = if leb name_max_len len then name_max_len - 1 else len in
    assert (get_or bytes len' 1 == 0) >> ok (record { len = len'; bytes = bytes })

-- `optics_key_push` returns the old length beside the key.
unfoldable pub push : Key → List ℕ → Run (Key × ℕ)
unfolding dotted append strlcpy
push key suffix =
    if key.len + 1 == name_max_len
    then ok (key, key.len)
    else append (dotted key) suffix >>= λ key'. ok (key', key.len)

-- `optics_key_pushf`: `formatted` is the whole text that `vsnprintf` makes of its arguments.
unfoldable pub pushf : Key → List ℕ → Run (Key × ℕ)
pushf key formatted = push key (take (name_max_len - 1) formatted)

-- `optics_key_pop`
unfoldable pub pop : Key → ℕ → Run Key
pop key pos = assert (leb pos key.len) >> ok (record { len = pos; bytes = set key.bytes pos 0 })
