-- ===== src/Key/Text.antt =====
-- src/utils/key.c: the text that a key holds, and the pushes and pops of it.
use optics.Base.{
  ℕ, ◌+◌, ◌-◌, ◌≤◌, ◌<◌, min, ◌≡◌, refl, sym, ◌∙◌, ap, ◌≢◌, inl, inr, List, [], ◌∷◌, ◌++◌, arith,
  take, set, length, get_or, copy_at, leb, ◌==◌, if◌then◌else◌, Run, ok, abort, length-append,
  length-take, length-set, take-set_end, take-set_le, take-append_le, take-append_ge, take_all,
  take-take_le, take-copy_at, get_or-copy_at, length-copy_at, get_or-append_ge, get_or-set_self,
  append_assoc, Bool-cases, ==_eq, not-==→ne, ne→not-==, le→leb, lt→not-leb, subst₂,
}
use optics.Key.{Key, name_max_len, strlcpy, dotted, append, push, pop}

-- The bytes before the nil byte that ends the key.
abbrev pub text : Key → List ℕ
text key = take key.len key.bytes

-- The array has its size, and a nil byte ends the text inside it.
pub record IsValid (key : Key) : Type 0 where
  pub size : length key.bytes ≡ name_max_len
  pub fits : key.len < name_max_len
  pub ended : get_or key.bytes key.len 1 ≡ 0

-- a dot between the two, unless the first is empty
pub join : List ℕ → List ℕ → List ℕ
join [] suffix = suffix
join (c ∷ cs) suffix = (c ∷ cs) ++ (b'.' ∷ suffix)

pub join_nil : (suffix : List ℕ) → join [] suffix ≡ suffix
unfolding join
join_nil suffix = refl

length-text : {key : Key} → IsValid key → length (text key) ≡ key.len
length-text {key} v = omega (arith, length-take key.len key.bytes)

last_nil : (i : ℕ) → i ≡ 0 → let nil : List ℕ = 0 ∷ [] in get_or nil i 1 ≡ 0
last_nil i e = rw e

-- What `strlcpy` writes behind position `pos` of an array of 256 bytes.
module _ (bs : List ℕ) (pos : ℕ) (src : List ℕ) where
  abbrev kept : List ℕ
  kept = take (255 - pos) src

  abbrev written : List ℕ
  written = copy_at bs pos (kept ++ (0 ∷ []))

  abbrev end : ℕ
  end = min (length src) (255 - pos)

  length-kept : length kept ≡ end
  length-kept = omega (arith, length-take (255 - pos) src)

  length-padded : length (kept ++ (0 ∷ [])) ≡ end + 1
  length-padded = omega (arith, length-append kept (0 ∷ []), length-kept)

  length-written : length bs ≡ 256 → pos < 256 → length written ≡ 256
  length-written size fits = length-copy_at bs pos _ (omega (arith, length-padded)) ∙ size

  take-written : length bs ≡ 256 → pos < 256 → take (pos + end) written ≡ take pos bs ++ kept
  take-written size fits =
      take-copy_at bs pos end _ (omega arith) (omega (arith, length-padded))
      ∙ ap (λ t. take pos bs ++ t)
          (take-append_le end kept (0 ∷ []) (omega (arith, length-kept))
            ∙ take_all end kept (omega (arith, length-kept)))

  nil-written : length bs ≡ 256 → pos < 256 → get_or written (pos + end) 1 ≡ 0
  nil-written size fits =
      get_or-copy_at bs pos end _ 1 (omega arith) (omega (arith, length-padded))
      ∙ get_or-append_ge kept (0 ∷ []) end 1 (omega (arith, length-kept))
      ∙ last_nil (end - length kept) (omega (arith, length-kept))

sub_one : (n : ℕ) → 256 - n - 1 ≡ 255 - n
sub_one n = omega arith

clamped : (p n : ℕ) → p < 256 → (if leb 256 (p + n) then 255 else p + n) ≡ p + min n (255 - p)
clamped p n h = ground arith

-- What `append` makes of a key whose array has its size.
append_lem :
    (key : Key) (suffix : List ℕ)
    → length key.bytes ≡ name_max_len
    → key.len < name_max_len
    → (key' : Key) × (append key suffix ≡ ok key')
      × IsValid key'
      × (text key' ≡ text key ++ take (255 - key.len) suffix)
unfolding append strlcpy
append_lem key suffix size fits =
    let w = written key.bytes key.len suffix in
    let e = end key.bytes key.len suffix in
    (
      record { len = key.len + e; bytes = w },
      rw (
        ne→not-== (256 - key.len) 0 (omega arith),
        sub_one key.len,
        clamped key.len (length suffix) fits,
        nil-written key.bytes key.len suffix size fits,
      ),
      record {
        size = length-written key.bytes key.len suffix size fits;
        fits = omega arith;
        ended = nil-written key.bytes key.len suffix size fits;
      },
      take-written key.bytes key.len suffix size fits,
    )

join_empty : (t suffix : List ℕ) → length t ≡ 0 → join t suffix ≡ t ++ suffix
unfolding join
join_empty [] suffix h = refl
join_empty (c ∷ cs) suffix h = absurd (omega arith)

join_dot : (t suffix : List ℕ) → 0 < length t → join t suffix ≡ (t ++ (b'.' ∷ [])) ++ suffix
unfolding join
join_dot [] suffix h = absurd (omega arith)
join_dot (c ∷ cs) suffix h = sym (append_assoc (c ∷ cs) (b'.' ∷ []) suffix)

-- The separator keeps the size of the array and makes the text ready for the suffix.
dotted_lem :
    {key : Key} (suffix : List ℕ)
    → IsValid key
    → key.len + 1 ≢ name_max_len
    → (length (dotted key).bytes ≡ name_max_len)
      × ((dotted key).len < name_max_len)
      × (text (dotted key) ++ suffix ≡ join (text key) suffix)
unfolding dotted
dotted_lem {key} suffix v h = elim (Bool-cases (key.len == 0)) [
  | inl e ↦
      let z : key.len ≡ 0 = ==_eq _ _ e in
      rw e (v.size, v.fits, sym (join_empty (text key) suffix (length-text v ∙ z)))
  | inr e ↦
      let p : key.len ≢ 0 = not-==→ne _ _ e in
      rw e (
        length-set key.bytes key.len b'.' ∙ v.size,
        omega arith,
        rw (take-set_end key.bytes key.len b'.' (omega arith))
            (sym (join_dot (text key) suffix (omega (arith, length-text v)))),
      )
]

take_push :
    (t suffix : List ℕ) (n : ℕ)
    → length t ≡ n
    → n ≤ 255
    → t ++ take (255 - n) suffix ≡ take 255 (t ++ suffix)
take_push t suffix n e h = rw (← e) (sym (take-append_ge 255 t suffix (omega arith)))

take_full : (t suffix : List ℕ) → length t ≡ 255 → t ≡ take 255 (join t suffix)
take_full t suffix h =
    rw (join_dot t suffix (omega arith), append_assoc t (b'.' ∷ []) suffix)
      (sym (take-append_le 255 t (b'.' ∷ suffix) (omega arith) ∙ take_all 255 t (omega arith)))

-- On a valid key a push never aborts: it returns the old length and leaves a valid key of the old
-- text, a dot unless that was empty, and the suffix, cut to 255 bytes.
pub push-text :
    {key : Key} (suffix : List ℕ)
    → IsValid key
    → (key' : Key) × (push key suffix ≡ ok (key', key.len))
      × IsValid key'
      × (text key' ≡ take 255 (join (text key) suffix))
unfolding push
push-text {key} suffix v = elim (Bool-cases (key.len + 1 == name_max_len)) [
  | inl full ↦
      let e : key.len + 1 ≡ 256 = ==_eq _ _ full in
      (key, rw full, v, take_full (text key) suffix (omega (arith, length-text v)))
  | inr room ↦
      let (size, fits, joined) = dotted_lem suffix v (not-==→ne _ _ room) in
      let (key', run, v', t) = append_lem (dotted key) suffix size fits in
      let len : length (text (dotted key)) ≡ (dotted key).len =
        omega (arith, length-take (dotted key).len (dotted key).bytes) in
      (
        key',
        rw (room, run),
        v',
        t
            ∙ take_push (text (dotted key)) suffix (dotted key).len len (omega arith)
            ∙ ap (λ l. take 255 l) joined,
      )
]

join_prefix : (t suffix : List ℕ) → (rest : List ℕ) × (join t suffix ≡ t ++ rest)
unfolding join
join_prefix [] suffix = (suffix, refl)
join_prefix (c ∷ cs) suffix = (b'.' ∷ suffix, refl)

-- The old text starts the text of a key that agrees with a join.
prefix_kept :
    {key key' : Key} (suffix : List ℕ)
    → IsValid key
    → IsValid key'
    → text key' ≡ take 255 (join (text key) suffix)
    → (key.len ≤ key'.len) × (take key.len key'.bytes ≡ text key)
prefix_kept {key} {key'} suffix v v' e =
    let t = text key in
    let (rest, j) = join_prefix t suffix in
    let cut : text key' ≡ take 255 (t ++ rest) = e ∙ ap (λ l. take 255 l) j in
    let le : key.len ≤ key'.len = omega (
      arith,
      ap length cut,
      length-take 255 (t ++ rest),
      length-append t rest,
      length-text v,
      length-text v',
    ) in
    (
      le,
      sym (take-take_le key.len key'.len key'.bytes le)
          ∙ ap (λ l. take key.len l) cut
          ∙ take-take_le key.len 255 (t ++ rest) (omega arith)
          ∙ take-append_le key.len t rest (omega (arith, length-text v))
          ∙ take_all key.len t (omega (arith, length-text v)),
    )

-- On a valid key, a pop to a position inside the text cuts it there, and leaves a valid key.
pub pop-text :
    {key : Key} (pos : ℕ)
    → IsValid key
    → pos ≤ key.len
    → (key' : Key) × (pop key pos ≡ ok key') × IsValid key' × (text key' ≡ take pos (text key))
unfolding pop
pop-text {key} pos v h = (
  record { len = pos; bytes = set key.bytes pos 0 },
  rw (le→leb pos key.len h),
  record {
    size = length-set key.bytes pos 0 ∙ v.size;
    fits = omega arith;
    ended = get_or-set_self key.bytes pos 0 1 (omega arith);
  },
  take-set_le key.bytes pos 0 ∙ sym (take-take_le pos key.len key.bytes h),
)

-- A pop past the end of the text aborts.
pub pop-abort : (key : Key) (pos : ℕ) → key.len < pos → pop key pos ≡ abort
unfolding pop
pop-abort key pos h = rw (lt→not-leb pos key.len h)

-- On a valid key, a pop to the length that a push returned never aborts, and gives back a valid key
-- with the text of before.
pub pop-push :
    {key key' : Key} {old : ℕ} (suffix : List ℕ)
    → IsValid key
    → push key suffix ≡ ok (key', old)
    → (key'' : Key) × (pop key' old ≡ ok key'') × IsValid key'' × (text key'' ≡ text key)
pop-push {key} {key'} {old} suffix v h =
    let (k, run, vk, t) = push-text suffix v in
    let both : ◌≡◌ {A = Run (Key × ℕ)} (ok (k, key.len)) (ok (key', old)) = sym run ∙ h in
    let ek : k ≡ key' = cc in
    let eo : key.len ≡ old = cc in
    let (le, kept) = prefix_kept suffix v vk t in
    let (k'', popped, v'', t'') = pop-text key.len vk le in
    (
      k'',
      subst₂ (λ a b. pop a b ≡ ok k'') ek eo popped,
      v'',
      t'' ∙ take-take_le key.len k.len k.bytes le ∙ kept,
    )
