-- ===== src/Buffer/Contents.antt =====
-- src/utils/buffer.c: what a buffer holds, and the operations on it.
use optics.Base.{
  ℕ, ◌+◌, ◌-◌, ◌^◌, ◌≤◌, ◌<◌, ◌≡◌, refl, sym, append_assoc, ap, ap₂, ◌∙◌, inl, inr, true, List, [],
  ◌∷◌, ◌++◌, some, arith, take, length, replicate, ltb, ◌==◌, ok, length-append, length-take,
  length-set, take-set_end, length-replicate, take-append_le, take_all, take-take_le, take-copy_at,
  length-copy_at, take_before-copy_at, ◌≢◌, append-nil, Bool-cases, ltb→lt, not-ltb→le, ==_eq,
  not-==→ne, ne→not-==, lt→ltb, double_until_lem,
}
use optics.Buffer.{
  Buffer, reset, regrow, grown, reserve, put, write, vsnprintf, retry, rewrite, printf,
}

abbrev pub contents : Buffer → List ℕ
contents b = take b.len b.bytes

-- The block has `cap` bytes, and the contents lie inside it.
pub record IsValid (b : Buffer) : Type 0 where
  pub block : length b.bytes ≡ b.cap
  pub within : b.len ≤ b.cap

pub reset-IsValid : IsValid reset
reset-IsValid = record { block = refl; within = omega arith }

-- the room that no size computed from it can wrap
abbrev pub limit : ℕ
limit = 2 ^ 63

grown_lem : (cap len : ℕ) → len ≤ limit → (len ≤ grown cap len) × (cap ≤ grown cap len)
unfolding grown
grown_lem cap len small = elim (Bool-cases (cap == 0)) [
  | inl e ↦
      let d = double_until_lem 64 len 128 (omega arith) small (omega arith) in
      rw e (d.reached, omega (arith, ==_eq _ _ e))
  | inr e ↦
      let d =
        double_until_lem 64 len cap (omega (arith, not-==→ne _ _ e)) small
          (omega (arith, not-==→ne _ _ e)) in
      rw e (d.reached, d.grown)
]

length-regrow : (xs : List ℕ) (n : ℕ) → length xs ≤ n → length (regrow xs n) ≡ n
unfolding regrow
length-regrow xs n h = omega (
  arith,
  length-append (take n xs) (replicate (n - length xs) 0),
  length-take n xs,
  length-replicate {A = ℕ} (n - length xs) 0,
)

take-regrow :
    (xs : List ℕ) (k n : ℕ) → k ≤ length xs → length xs ≤ n → take k (regrow xs n) ≡ take k xs
unfolding regrow
take-regrow xs k n hk h =
    take-append_le k (take n xs) _ (omega (arith, length-take n xs))
    ∙ take-take_le k n xs (omega arith)

-- what a reservation leaves alone, and what it provides
record Reserved (b : Buffer) (len : ℕ) (b' : Buffer) : Type 0 where
  valid : IsValid b'
  same : contents b' ≡ contents b
  kept : b'.len ≡ b.len
  roomy : len ≤ b'.cap

reserve-Reserved : {b : Buffer} (len : ℕ) → IsValid b → len ≤ limit → Reserved b len (reserve b len)
unfolding reserve
reserve-Reserved {b} len v small = elim (Bool-cases (ltb len b.cap)) [
  | inl fits ↦
      rw fits
        (record { valid = v; same = refl; kept = refl; roomy = omega (arith, ltb→lt _ _ fits) })
  | inr short ↦
      let (reached, larger) = grown_lem b.cap len small in
      rw short (record {
        valid = record {
          block = length-regrow b.bytes (grown b.cap len) (omega arith);
          within = omega arith;
        };
        same = take-regrow b.bytes b.len (grown b.cap len) (omega arith) (omega arith);
        kept = refl;
        roomy = reached;
      })
]

-- the buffer `b'` is valid and holds `s` behind what `b` holds
pub length-contents : {b : Buffer} → IsValid b → length (contents b) ≡ b.len
length-contents {b} v = omega (arith, length-take b.len b.bytes)

pub record Appends (b : Buffer) (s : List ℕ) (b' : Buffer) : Type 0 where
  pub valid : IsValid b'
  pub appended : contents b' ≡ contents b ++ s

-- On a valid buffer shorter than 2^63, a byte that is put goes behind the contents, whatever the
-- capacity was.
pub put-Appends : {b : Buffer} (c : ℕ) → IsValid b → b.len < limit → Appends b (c ∷ []) (put b c)
unfolding put
put-Appends {b} c v small =
    let b' = reserve b (b.len + 1) in
    let r : Reserved b (b.len + 1) b' = reserve-Reserved (b.len + 1) v (omega arith) in
    record {
      valid = record {
        block = length-set b'.bytes b'.len c ∙ r.valid.block;
        within = omega (arith, r.kept, r.roomy);
      };
      appended =
          take-set_end b'.bytes b'.len c (omega (arith, r.kept, r.roomy, r.valid.block))
          ∙ ap (λ t. t ++ (c ∷ [])) r.same;
    }

-- On a valid buffer, while the length stays within 2^63, a block of bytes that is written goes
-- behind the contents, whatever the capacity was.
pub write-Appends :
    {b : Buffer} (src : List ℕ)
    → IsValid b
    → b.len + length src ≤ limit
    → Appends b src (write b src)
unfolding write
write-Appends {b} src v small =
    let b' = reserve b (b.len + length src) in
    let r : Reserved b (b.len + length src) b' = reserve-Reserved (b.len + length src) v small in
    record {
      valid = record {
        block =
            length-copy_at b'.bytes b'.len src (omega (arith, r.kept, r.roomy, r.valid.block))
            ∙ r.valid.block;
        within = omega (arith, r.kept, r.roomy);
      };
      appended =
          take-copy_at b'.bytes b'.len (length src) src
            (omega (arith, r.kept, r.roomy, r.valid.block)) (omega arith)
          ∙ ap₂ ◌++◌ r.same (take_all (length src) src (omega arith));
    }

-- `vsnprintf` stays inside the block and leaves the bytes before its position alone.
vsnprintf-keeps :
    (dst : List ℕ) (pos cap : ℕ) (s : List ℕ)
    → length dst ≡ cap
    → pos ≤ cap
    → (length (vsnprintf dst pos (cap - pos) s) ≡ cap)
      × (take pos (vsnprintf dst pos (cap - pos) s) ≡ take pos dst)
unfolding vsnprintf
vsnprintf-keeps dst pos cap s e h = elim (Bool-cases (cap - pos == 0)) [
  | inl full ↦ rw full (e, refl)
  | inr room ↦
      let bytes = take (cap - pos - 1) s ++ (0 ∷ []) in
      let ne : cap - pos ≢ 0 = not-==→ne _ _ room in
      let small : length bytes ≤ cap - pos =
        omega
          (arith, length-append (take (cap - pos - 1) s) (0 ∷ []), length-take (cap - pos - 1) s) in
      rw room (
        length-copy_at dst pos bytes (omega arith) ∙ e,
        take_before-copy_at dst pos bytes (omega arith),
      )
]

-- Where the text and its nil byte fit, all of it is written.
vsnprintf-writes :
    (dst : List ℕ) (pos cap : ℕ) (s : List ℕ)
    → length dst ≡ cap
    → pos + length s < cap
    → take (pos + length s) (vsnprintf dst pos (cap - pos) s) ≡ take pos dst ++ s
unfolding vsnprintf
vsnprintf-writes dst pos cap s e h =
    let whole : take (cap - pos - 1) s ≡ s = take_all (cap - pos - 1) s (omega arith) in
    rw (ne→not-== (cap - pos) 0 (omega arith), whole)
      (take-copy_at dst pos (length s) (s ++ (0 ∷ [])) (omega arith)
          (omega (arith, length-append s (0 ∷ [])))
        ∙ ap (λ t. take pos dst ++ t)
            (take-append_le (length s) s (0 ∷ []) (omega arith)
              ∙ take_all (length s) s (omega arith)))

-- the first attempt of `buffer_printf`
abbrev first : Buffer → List ℕ → Buffer
first b s = record b { bytes = vsnprintf b.bytes b.len (b.cap - b.len) s }

abbrev advance : Buffer → List ℕ → Buffer
advance b s = record b { len = b.len + length s }

first-Appends :
    {b : Buffer} (s : List ℕ)
    → IsValid b
    → b.len + length s < b.cap
    → Appends b s (advance (first b s) s)
first-Appends {b} s v fits = record {
  valid = record {
    block = (vsnprintf-keeps b.bytes b.len b.cap s v.block v.within).0;
    within = omega arith;
  };
  appended = vsnprintf-writes b.bytes b.len b.cap s v.block fits;
}

first_empty-Appends : {b : Buffer} → IsValid b → Appends b [] (advance (first b []) [])
first_empty-Appends {b} v =
    let (block, kept) = vsnprintf-keeps b.bytes b.len b.cap [] v.block v.within in
    let e : b.len + 0 ≡ b.len = omega arith in
    record {
      valid = record { block = block; within = omega arith };
      appended = rw (e, append-nil) kept;
    }

first-IsValid : {b : Buffer} (s : List ℕ) → IsValid b → IsValid (first b s)
first-IsValid {b} s v = record {
  block = (vsnprintf-keeps b.bytes b.len b.cap s v.block v.within).0;
  within = v.within;
}

rewrite-Appends :
    {b : Buffer} (s : List ℕ)
    → IsValid b
    → b.len + length s < limit
    → Appends b s (advance (rewrite (first b s) s) s)
unfolding rewrite
rewrite-Appends {b} s v small =
    let f = first b s in
    let b' = reserve f (f.len + length s + 1) in
    let r : Reserved f (f.len + length s + 1) b' =
      reserve-Reserved (f.len + length s + 1) (first-IsValid s v) (omega arith) in
    let a : Appends b' s (advance (first b' s) s) =
      first-Appends s r.valid (omega (arith, r.kept, r.roomy)) in
    record {
      valid = a.valid;
      appended =
          a.appended
          ∙ ap (λ t. t ++ s) (r.same ∙ (vsnprintf-keeps b.bytes b.len b.cap s v.block v.within).1);
    }

retry-Appends :
    {b : Buffer} (s : List ℕ)
    → IsValid b
    → b.len + length s < limit
    → Appends b s (advance (retry (first b s) s) s)
unfolding retry
retry-Appends [] v small = first_empty-Appends v
retry-Appends {b} (c ∷ s) v small =
    let some_text : ltb 0 (length (c ∷ s)) ≡ true = lt→ltb 0 (length (c ∷ s)) (omega arith) in
    elim (Bool-cases (ltb (b.cap - b.len) (length (c ∷ s) + 1))) [
      | inl short ↦ rw (some_text, short) (rewrite-Appends (c ∷ s) v small)
      | inr room ↦
          rw (some_text, room)
            (first-Appends (c ∷ s) v
              (omega (arith, v.within, not-ltb→le (b.cap - b.len) (length (c ∷ s) + 1) room)))
    ]

-- On a valid buffer, while its length stays below 2^63, a formatted text whose length fits an `int`
-- with one more goes behind the contents without an abort, whether the first attempt fitted or not.
pub printf-Appends :
    {b : Buffer} (s : List ℕ)
    → IsValid b
    → b.len + length s < limit
    → length s + 1 < 2 ^ 31
    → (b' : Buffer) × (printf b (some s) ≡ ok b') × Appends b s b'
unfolding printf
printf-Appends {b} s v small int = (
  advance (retry (first b s) s) s,
  rw (lt→ltb (length s + 1) (2 ^ 31) int),
  retry-Appends s v small,
)

-- how long a buffer is after an append, and two appends in a row
pub Appends-len :
    {b b' : Buffer} {s : List ℕ} → IsValid b → Appends b s b' → b'.len ≡ b.len + length s
Appends-len {b} {b'} {s} v a = omega (
  arith,
  length-contents v,
  length-contents a.valid,
  ap length a.appended,
  length-append (contents b) s,
)

pub Appends-append :
    {b b' b'' : Buffer} {s t : List ℕ} → Appends b s b' → Appends b' t b'' → Appends b (s ++ t) b''
Appends-append {b} {b'} {b''} {s} {t} a a' = record {
  valid = a'.valid;
  appended = a'.appended ∙ ap (λ x. x ++ t) a.appended ∙ append_assoc (contents b) s t;
}

pub Appends-nil : {b : Buffer} → IsValid b → Appends b [] b
Appends-nil {b} v = record { valid = v; appended = sym (append-nil (contents b)) }
