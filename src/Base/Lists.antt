-- ===== src/Base/Lists.antt =====
-- Arrays as lists with native indices, under the library's names.
use Prim.Native.Nat.{ℕ, zero, suc, ◌+◌, ◌-◌, ◌≤◌, ◌<◌, min}
use mathlib.Core.Path.{◌≡◌, refl, ap, ◌∙◌}
use mathlib.Core.Logic.{◌≢◌}
use mathlib.Core.List.{List, [], ◌∷◌, ◌++◌}
use mathlib.Core.Option.{Option, none, some}
use native.Mathlib.Omega.{arith}

module _ {ℓ} {A : Type ℓ} where
  abbrev pub length : List A → ℕ
  length [] = 0
  length (x ∷ xs) = suc (length xs)

  abbrev pub get_elem? : List A → ℕ → Option A
  get_elem? [] i = none
  get_elem? (x ∷ xs) zero = some x
  get_elem? (x ∷ xs) (suc i) = get_elem? xs i

  abbrev pub get_or : List A → ℕ → A → A
  get_or [] i d = d
  get_or (x ∷ xs) zero d = x
  get_or (x ∷ xs) (suc i) d = get_or xs i d

  -- A write out of bounds changes nothing.
  abbrev pub set : List A → ℕ → A → List A
  set [] i v = []
  set (x ∷ xs) zero v = v ∷ xs
  set (x ∷ xs) (suc i) v = x ∷ set xs i v

  abbrev pub take : ℕ → List A → List A
  take zero xs = []
  take (suc n) [] = []
  take (suc n) (x ∷ xs) = x ∷ take n xs

  abbrev pub drop : ℕ → List A → List A
  drop zero xs = xs
  drop (suc n) [] = []
  drop (suc n) (x ∷ xs) = drop n xs

  abbrev pub replicate : ℕ → A → List A
  replicate zero a = []
  replicate (suc n) a = a ∷ replicate n a

  pub length-append : (xs ys : List A) → length (xs ++ ys) ≡ length xs + length ys
  length-append [] ys = omega arith
  length-append (x ∷ xs) ys = omega (arith, length-append xs ys)

  pub length-set : (xs : List A) (i : ℕ) (v : A) → length (set xs i v) ≡ length xs
  length-set [] i v = refl
  length-set (x ∷ xs) zero v = refl
  length-set (x ∷ xs) (suc i) v = ap suc (length-set xs i v)

  pub length-take : (n : ℕ) (xs : List A) → length (take n xs) ≡ min n (length xs)
  length-take zero xs = omega arith
  length-take (suc n) [] = omega arith
  length-take (suc n) (x ∷ xs) = omega (arith, length-take n xs)

  pub length-drop : (n : ℕ) (xs : List A) → length (drop n xs) ≡ length xs - n
  length-drop zero xs = omega arith
  length-drop (suc n) [] = omega arith
  length-drop (suc n) (x ∷ xs) = omega (arith, length-drop n xs)

  pub length-replicate : (n : ℕ) (a : A) → length (replicate n a) ≡ n
  length-replicate zero a = refl
  length-replicate (suc n) a = ap suc (length-replicate n a)

  pub get_or-replicate_lt : (n i : ℕ) (a d : A) → i < n → get_or (replicate n a) i d ≡ a
  get_or-replicate_lt zero i a d lt = absurd (omega (arith, lt))
  get_or-replicate_lt (suc n) zero a d lt = refl
  get_or-replicate_lt (suc n) (suc i) a d lt = get_or-replicate_lt n i a d (omega (arith, lt))

  pub get_or-replicate : (n i : ℕ) (a : A) → get_or (replicate n a) i a ≡ a
  get_or-replicate (suc n) (suc i) a = get_or-replicate n i a
  get_or-replicate (suc n) zero a = refl
  get_or-replicate zero i a = refl

  pub get_or-set_self :
      (xs : List A) (i : ℕ) (v d : A) → i < length xs → get_or (set xs i v) i d ≡ v
  get_or-set_self [] i v d h = absurd (omega arith)
  get_or-set_self (x ∷ xs) zero v d h = refl
  get_or-set_self (x ∷ xs) (suc i) v d h = get_or-set_self xs i v d (omega arith)

  pub get_or-set_ne :
      (xs : List A) (i j : ℕ) (v d : A) → i ≢ j → get_or (set xs i v) j d ≡ get_or xs j d
  get_or-set_ne [] i j v d h = refl
  get_or-set_ne (x ∷ xs) zero zero v d h = absurd (h refl)
  get_or-set_ne (x ∷ xs) zero (suc j) v d h = refl
  get_or-set_ne (x ∷ xs) (suc i) zero v d h = refl
  get_or-set_ne (x ∷ xs) (suc i) (suc j) v d h = get_or-set_ne xs i j v d (λ e. h (ap suc e))

  -- A prefix of an append that ends in its first part, and one that reaches past it.
  pub take-append_le : (n : ℕ) (xs ys : List A) → n ≤ length xs → take n (xs ++ ys) ≡ take n xs
  take-append_le zero xs ys h = refl
  take-append_le (suc n) [] ys h = absurd (omega arith)
  take-append_le (suc n) (x ∷ xs) ys h = ap (λ t. x ∷ t) (take-append_le n xs ys (omega arith))

  pub take-append_ge :
      (n : ℕ) (xs ys : List A) → length xs ≤ n → take n (xs ++ ys) ≡ xs ++ take (n - length xs) ys
  take-append_ge n [] ys h = ap (λ k. take k ys) (omega arith)
  take-append_ge zero (x ∷ xs) ys h = absurd (omega arith)
  take-append_ge (suc n) (x ∷ xs) ys h =
      let e : n - length xs ≡ suc n - suc (length xs) = omega arith in
      ap (λ t. x ∷ t) (rw (← e) (take-append_ge n xs ys (omega arith)))

  pub take_all : (n : ℕ) (xs : List A) → length xs ≤ n → take n xs ≡ xs
  take_all zero [] h = refl
  take_all zero (x ∷ xs) h = absurd (omega arith)
  take_all (suc n) [] h = refl
  take_all (suc n) (x ∷ xs) h = ap (λ t. x ∷ t) (take_all n xs (omega arith))

  pub take-take_le : (m n : ℕ) (xs : List A) → m ≤ n → take m (take n xs) ≡ take m xs
  take-take_le zero n xs h = refl
  take-take_le (suc m) zero xs h = absurd (omega arith)
  take-take_le (suc m) (suc n) [] h = refl
  take-take_le (suc m) (suc n) (x ∷ xs) h = ap (λ t. x ∷ t) (take-take_le m n xs (omega arith))

  pub get_or-append_ge :
      (xs ys : List A) (i : ℕ) (d : A)
      → length xs ≤ i
      → get_or (xs ++ ys) i d ≡ get_or ys (i - length xs) d
  get_or-append_ge [] ys i d h = ap (λ k. get_or ys k d) (omega arith)
  get_or-append_ge (x ∷ xs) ys zero d h = absurd (omega arith)
  get_or-append_ge (x ∷ xs) ys (suc i) d h =
      let e : i - length xs ≡ suc i - suc (length xs) = omega arith in
      rw (← e) (get_or-append_ge xs ys i d (omega arith))

  pub get_or-append_lt :
      (xs ys : List A) (i : ℕ) (d : A) → i < length xs → get_or (xs ++ ys) i d ≡ get_or xs i d
  get_or-append_lt [] ys i d h = absurd (omega arith)
  get_or-append_lt (x ∷ xs) ys zero d h = refl
  get_or-append_lt (x ∷ xs) ys (suc i) d h = get_or-append_lt xs ys i d (omega arith)

  pub get_or-drop :
      (n : ℕ) (xs : List A) (i : ℕ) (d : A) → get_or (drop n xs) i d ≡ get_or xs (n + i) d
  get_or-drop zero xs i d = ap (λ k. get_or xs k d) (omega arith)
  get_or-drop (suc n) [] i d = refl
  get_or-drop (suc n) (x ∷ xs) i d =
      let e : suc n + i ≡ suc (n + i) = omega arith in rw e (get_or-drop n xs i d)

  pub take-set_end :
      (xs : List A) (n : ℕ) (c : A)
      → n < length xs
      → take (n + 1) (set xs n c) ≡ take n xs ++ (c ∷ [])
  take-set_end [] n c h = absurd (omega arith)
  take-set_end (x ∷ xs) zero c h = refl
  take-set_end (x ∷ xs) (suc n) c h =
      let e : suc n + 1 ≡ suc (n + 1) = omega arith in
      rw e (ap (λ t. x ∷ t) (take-set_end xs n c (omega arith)))

  pub take-set_le : (xs : List A) (n : ℕ) (c : A) → take n (set xs n c) ≡ take n xs
  take-set_le xs zero c = refl
  take-set_le [] (suc n) c = refl
  take-set_le (x ∷ xs) (suc n) c = ap (λ t. x ∷ t) (take-set_le xs n c)

  -- `memcpy(data + pos, bytes, n)`, for a copy that ends inside the array.
  abbrev pub copy_at : List A → ℕ → List A → List A
  copy_at xs pos bytes = take pos xs ++ (bytes ++ drop (pos + length bytes) xs)

  pub length-copy_at :
      (xs : List A) (pos : ℕ) (bytes : List A)
      → pos + length bytes ≤ length xs
      → length (copy_at xs pos bytes) ≡ length xs
  length-copy_at xs pos bytes h = omega (
    arith,
    length-append (take pos xs) (bytes ++ drop (pos + length bytes) xs),
    length-append bytes (drop (pos + length bytes) xs),
    length-take pos xs,
    length-drop (pos + length bytes) xs,
  )

  pub take-copy_at :
      (xs : List A) (pos n : ℕ) (bytes : List A)
      → pos ≤ length xs
      → n ≤ length bytes
      → take (pos + n) (copy_at xs pos bytes) ≡ take pos xs ++ take n bytes
  take-copy_at xs pos n bytes h hn =
      let e : length (take pos xs) ≡ pos = omega (arith, length-take pos xs) in
      let k : (pos + n) - length (take pos xs) ≡ n = omega arith in
      rw
        (take-append_ge (pos + n) (take pos xs) (bytes ++ drop (pos + length bytes) xs)
          (omega arith))
        (rw k (ap (λ t. take pos xs ++ t) (take-append_le n bytes _ hn)))

  pub get_or-copy_at :
      (xs : List A) (pos i : ℕ) (bytes : List A) (d : A)
      → pos ≤ length xs
      → i < length bytes
      → get_or (copy_at xs pos bytes) (pos + i) d ≡ get_or bytes i d
  get_or-copy_at xs pos i bytes d h hi =
      let e : length (take pos xs) ≡ pos = omega (arith, length-take pos xs) in
      let k : (pos + i) - length (take pos xs) ≡ i = omega arith in
      rw
        (get_or-append_ge (take pos xs) (bytes ++ drop (pos + length bytes) xs) (pos + i) d
          (omega arith))
        (rw k (get_or-append_lt bytes _ i d hi))

  -- The copy leaves what stands before it alone.
  pub take_before-copy_at :
      (xs : List A) (pos : ℕ) (bytes : List A)
      → pos ≤ length xs
      → take pos (copy_at xs pos bytes) ≡ take pos xs
  take_before-copy_at xs pos bytes h =
      let e : length (take pos xs) ≡ pos = omega (arith, length-take pos xs) in
      take-append_le pos (take pos xs) (bytes ++ drop (pos + length bytes) xs) (omega arith)
      ∙ take-take_le pos pos xs (omega arith)

  -- a prefix of an append, in one equation
  pub take-append :
      (n : ℕ) (xs ys : List A) → take n (xs ++ ys) ≡ take n xs ++ take (n - length xs) ys
  take-append zero [] ys = refl
  take-append zero (x ∷ xs) ys = let e : 0 - suc (length xs) ≡ 0 = omega arith in rw e
  take-append (suc n) [] ys = let e : suc n ≡ suc n - 0 = omega arith in ap (λ k. take k ys) e
  take-append (suc n) (x ∷ xs) ys =
      let e : n - length xs ≡ suc n - suc (length xs) = omega arith in
      ap (λ t. x ∷ t) (rw (← e) (take-append n xs ys))

  pub drop-append_ge :
      (n : ℕ) (xs ys : List A) → length xs ≤ n → drop n (xs ++ ys) ≡ drop (n - length xs) ys
  drop-append_ge n [] ys h = ap (λ k. drop k ys) (omega arith)
  drop-append_ge zero (x ∷ xs) ys h = absurd (omega arith)
  drop-append_ge (suc n) (x ∷ xs) ys h =
      let e : n - length xs ≡ suc n - suc (length xs) = omega arith in
      rw (← e) (drop-append_ge n xs ys (omega arith))

  pub drop-replicate : (n m : ℕ) (a : A) → drop n (replicate m a) ≡ replicate (m - n) a
  drop-replicate zero m a = let e : m - 0 ≡ m = omega arith in rw e
  drop-replicate (suc n) zero a = let e : 0 - suc n ≡ 0 = omega arith in rw e
  drop-replicate (suc n) (suc m) a =
      let e : m - n ≡ suc m - suc n = omega arith in rw (← e) (drop-replicate n m a)

  pub get_elem?-set_self :
      (xs : List A) (i : ℕ) (v : A) → i < length xs → get_elem? (set xs i v) i ≡ some v
  get_elem?-set_self [] i v h = absurd (omega arith)
  get_elem?-set_self (x ∷ xs) zero v h = refl
  get_elem?-set_self (x ∷ xs) (suc i) v h = get_elem?-set_self xs i v (omega arith)

  pub get_elem?-set_ne :
      (xs : List A) (i j : ℕ) (v : A) → i ≢ j → get_elem? (set xs i v) j ≡ get_elem? xs j
  get_elem?-set_ne [] i j v h = refl
  get_elem?-set_ne (x ∷ xs) zero zero v h = absurd (h refl)
  get_elem?-set_ne (x ∷ xs) zero (suc j) v h = refl
  get_elem?-set_ne (x ∷ xs) (suc i) zero v h = refl
  get_elem?-set_ne (x ∷ xs) (suc i) (suc j) v h = get_elem?-set_ne xs i j v (λ e. h (ap suc e))

  pub get_elem?-append_lt :
      (xs ys : List A) (i : ℕ) → i < length xs → get_elem? (xs ++ ys) i ≡ get_elem? xs i
  get_elem?-append_lt [] ys i h = absurd (omega arith)
  get_elem?-append_lt (x ∷ xs) ys zero h = refl
  get_elem?-append_lt (x ∷ xs) ys (suc i) h = get_elem?-append_lt xs ys i (omega arith)

  pub get_elem?-append_end : (xs : List A) (y : A) → get_elem? (xs ++ (y ∷ [])) (length xs) ≡ some y
  get_elem?-append_end [] y = refl
  get_elem?-append_end (x ∷ xs) y = get_elem?-append_end xs y

  pub get_elem?-some : (xs : List A) (i : ℕ) → i < length xs → (x : A) × (get_elem? xs i ≡ some x)
  get_elem?-some [] i h = absurd (omega arith)
  get_elem?-some (x ∷ xs) zero h = (x, refl)
  get_elem?-some (x ∷ xs) (suc i) h = get_elem?-some xs i (omega arith)

-- the `n` numbers from `i` on
abbrev pub seq : ℕ → ℕ → List ℕ
seq i zero = []
seq i (suc n) = i ∷ seq (i + 1) n

-- the elements of all the lists, in their order
abbrev pub concat {ℓ} : {A : Type ℓ} → List (List A) → List A
concat [] = []
concat (xs ∷ xss) = xs ++ concat xss
