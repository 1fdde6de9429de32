-- ===== src/Region/Grow.antt =====
-- src/region.c: the invariant of a region, and `region_grow` and `region_ptr` on it.
use optics.Base.{
  ℕ, ◌+◌, ◌%◌, ◌^◌, ◌≤◌, ◌<◌, ◌≡◌, refl, sym, ◌⊎◌, inl, inr, true, some, arith, leb,
  double_until_lem, List, [], ◌∷◌, subst, Bool-cases, leb→le,
}
use optics.Bits.Rounding.{align_lem}
use optics.Region.{Region, Os, Mapping, mappings, default_len, create_new, grow, ptr}

-- The header is inside the region, the region inside its mapping, and no sum near them wraps.
pub record IsValid (r : Region) : Type 0 where
  pub header : r.min_pos ≤ r.pos
  pub mapped : r.pos ≤ r.vma_len
  pub nonempty : 0 < r.vma_len
  pub small : r.vma_len ≤ 2 ^ 62

-- What region_create makes is valid, owned and holds the header, with its end on a cache line, if
-- the header is no longer than the first mapping.
pub create_new-IsValid :
    (os : Os) (len : ℕ) {r : Region}
    → len ≤ default_len
    → create_new os len ≡ some r
    → IsValid r × (r.owned ≡ true) × (r.min_pos ≡ len) × (r.pos % 64 ≡ 0)
unfolding create_new
create_new-IsValid os len {r} h e = ground (arith, align_lem len 64 (omega arith))

-- a growth by `len` that succeeded
pub record Grown (r : Region) (len : ℕ) (r' : Region) (off : ℕ) : Type 0 where
  pub valid : IsValid r'
  pub start : off ≡ r.pos
  pub pos : r'.pos ≡ r.pos + len
  pub same_header : r'.min_pos ≡ r.min_pos
  pub larger : r.vma_len ≤ r'.vma_len
  pub same_owner : r'.owned ≡ r.owned
  pub kept : (mappings r' ≡ mappings r) ⊎ (r'.old_vmas ≡ mappings r)

-- In a valid region that is not empty, below 2^61 bytes, a growth hands out the space from the old
-- end on, all of it mapped, and keeps the region valid, or gives 0 and changes nothing.
pub grow-Grown :
    (os : Os) {r : Region} (len : ℕ)
    → IsValid r
    → 0 < r.pos
    → r.pos + len < 2 ^ 61
    → let (r', off) = grow os r len in Grown r len r' off ⊎ ((off ≡ 0) × (r' ≡ r))
unfolding grow
grow-Grown os {r} len v pos small =
    let n = (r.pos + len) % 2 ^ 64 in
    let no_wrap : n ≡ r.pos + len = omega arith in
    let d = double_until_lem 64 (n + 1) r.vma_len v.nonempty (omega arith) (omega arith) in
    elim (Bool-cases r.owned) [
      | inr reader ↦ rw reader (inr (refl, refl))
      | inl owner ↦ elim (Bool-cases (leb n r.vma_len)) [
        | inl fits ↦
            rw (owner, fits)
              (inl (record {
                valid = record {
                  header = omega arith;
                  mapped = leb→le _ _ fits;
                  nonempty = v.nonempty;
                  small = v.small;
                };
                start = refl;
                pos = no_wrap;
                same_header = refl;
                larger = omega arith;
                same_owner = refl;
                kept = inl refl;
              }))
        | inr short ↦ elim (Bool-cases os.truncated) [
          | inr bad ↦ rw (owner, short, bad) (inr (refl, refl))
          | inl sized ↦ elim (Bool-cases os.mapped) [
            | inr bad ↦ rw (owner, short, sized, bad) (inr (refl, refl))
            | inl mapped ↦
                rw (owner, short, sized, mapped)
                  (inl (record {
                    valid = record {
                      header = omega arith;
                      mapped = omega (arith, d.reached);
                      nonempty = omega (arith, d.reached);
                      small = omega (arith, d.tight);
                    };
                    start = refl;
                    pos = no_wrap;
                    same_header = refl;
                    larger = d.grown;
                    same_owner = refl;
                    kept = inr refl;
                  }))
          ]
        ]
      ]
    ]

-- One of the mappings has, at a pointer, `n` bytes of the file from an offset on.
unfoldable pub Points : List Mapping → ℕ → ℕ → ℕ → Type 0
Points [] off n p = ⊥
Points (m ∷ ms) off n p = ((p ≡ m.base + off) × (off + n ≤ m.len)) ⊎ Points ms off n p

-- In a valid region, a pointer whose access does not wrap leads, with all it may access, to what is
-- between the header and the end of the region, in one of its mappings.
pub ptr-some :
    (r : Region) (off len : ℕ) {p : ℕ}
    → IsValid r
    → off + len < 2 ^ 64
    → ptr r off len ≡ some p
    → (p ≡ r.vma_ptr + off) × (r.min_pos ≤ off) × (off + len ≤ r.pos) × (off + len ≤ r.vma_len)
unfolding ptr
ptr-some r off len v small e = ground arith

pub ptr-of_in :
    (r : Region) (off len : ℕ)
    → IsValid r
    → r.min_pos ≤ off
    → off + len ≤ r.pos
    → ptr r off len ≡ some (r.vma_ptr + off)
unfolding ptr
ptr-of_in r off len v lo hi =
    let no_wrap : (off + len) % 2 ^ 64 ≡ off + len = omega arith in ground arith

-- what a pointer of `region_ptr` leads to
pub ptr-Points :
    (r : Region) (off n : ℕ) {p : ℕ}
    → IsValid r
    → off + n < 2 ^ 64
    → ptr r off n ≡ some p
    → Points (mappings r) off n p
unfolding Points
ptr-Points r off n v small e =
    let (at, lo, hi, inside) = ptr-some r off n v small e in inl (at, inside)

-- what is mapped stays so behind another mapping
Points-old :
    (m : Mapping) (ms : List Mapping) (off n p : ℕ) → Points ms off n p → Points (m ∷ ms) off n p
unfolding Points
Points-old m ms off n p h = inr h

-- a pointer that `region_ptr` gives, and where it leads
abbrev pub Reached : Region → ℕ → ℕ → Type 0
Reached r off n = (p : ℕ) × (ptr r off n ≡ some p) × Points (mappings r) off n p

inside-Reached :
    (r : Region) (off n : ℕ)
    → IsValid r
    → off + n < 2 ^ 64
    → r.min_pos ≤ off
    → off + n ≤ r.pos
    → Reached r off n
inside-Reached r off n v small lo hi =
    let at = ptr-of_in r off n v lo hi in (r.vma_ptr + off, at, ptr-Points r off n v small at)

-- In a valid region that is not empty, below 2^61 bytes, growth keeps every pointer: one that leads
-- through some mapping of the region to bytes that can be reached still does so afterwards. Those
-- bytes can still be reached, and the space that a growth hands out can be, behind them.
pub grow-ptr :
    (os : Os) {r : Region} (len off n p : ℕ) {now : ℕ}
    → IsValid r
    → 0 < r.pos
    → r.pos + len < 2 ^ 61
    → off + n < 2 ^ 64
    → ptr r off n ≡ some now
    → Points (mappings r) off n p
    → let (r', start) = grow os r len in
      Points (mappings r') off n p
      × Reached r' off n
      × ((start ≡ 0) ⊎ ((off + n ≤ start) × Reached r' start len))
grow-ptr os {r} len off n p {now} v pos small range e held =
    let (same, lo, hi, in_map) = ptr-some r off n v range e in
    elim (grow-Grown os len v pos small) [
      | inr (failed, unchanged) ↦
          rw unchanged (held, inside-Reached r off n v range lo hi, inl failed)
      | inl g ↦
          let r' = (grow os r len).0 in
          let start = (grow os r len).1 in
          (
            elim g.kept [
              | inl ms ↦ subst (λ (t : List Mapping). Points t off n p) (sym ms) held
              | inr old ↦
                  Points-old _ r'.old_vmas off n p
                    (subst (λ (t : List Mapping). Points t off n p) (sym old) held)
            ],
            inside-Reached r' off n g.valid range (omega (arith, g.same_header))
                (omega (arith, g.pos)),
            inr (
              omega (arith, g.start),
              inside-Reached r' start len g.valid (omega (arith, g.start))
                  (omega (arith, g.start, g.same_header, v.header)) (omega (arith, g.start, g.pos)),
            ),
          )
    ]
