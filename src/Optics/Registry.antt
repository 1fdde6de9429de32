-- ===== src/Optics/Registry.antt =====
-- src/optics.c: the lenses by their names. A handle is the offset of its lens.
use optics.Base.{
  ℕ, ◌+◌, ◌*◌, Bool, true, false, Option, none, some, Text, ◌==◌, if◌then◌else◌, Run, ok, abort,
  ◌>>=◌,
}
use optics.Htable
use optics.Optics.Space.{Allocator}
use optics.Optics.{
  Optics, LensType, counter, gauge, dist, quantile, lens_alloc, lens_free, lens_ptr, push_lens,
  remove_lens, total_len, defer_free,
}

module _ {S : Type 0} (A : Allocator S) (fuel : ℕ) where
  -- `optics_lens_get`; a handle of 0 is one whose lens could not be reached
  unfoldable pub lens_get : Optics S → Text → Run (Optics S × Option ℕ)
  lens_get o name = elim (Htable.get fuel o.keys name) [
    | none ↦ abort
    | some (keys, r) ↦ ok (
      record o { keys = keys },
      if r.found then some (if lens_ptr A o r.value then r.value else 0) else none,
    )
  ]

  -- `optics_lens_alloc`: nothing where the name is taken
  unfoldable pub publish : Optics S → ℕ → Run (Optics S × Option ℕ)
  publish o lens =
      let l = o.lenses lens in
      elim (Htable.put fuel o.keys l.name l.off) [
        | none ↦ abort
        | some (keys, r) ↦ elim r.found [
          | true ↦ push_lens A (record o { keys = keys }) lens >>= λ o'. ok (o', some lens)
          | false ↦ ok (record o { keys = keys }, none)
        ]
      ]

  -- `optics_lens_alloc_get`: the lens that has the name already, if there is one
  unfoldable pub publish_or_get : Optics S → ℕ → Run (Optics S × ℕ)
  publish_or_get o lens =
      let l = o.lenses lens in
      elim (Htable.put fuel o.keys l.name l.off) [
        | none ↦ abort
        | some (keys, r) ↦ elim r.found [
          | true ↦ push_lens A (record o { keys = keys }) lens >>= λ o'. ok (o', lens)
          | false ↦ ok (record o { keys = keys }, if lens_ptr A o r.value then r.value else 0)
        ]
      ]

  -- `optics_lens_free`
  unfoldable pub free : Optics S → ℕ → Run (Optics S × Bool)
  free o lens = elim (Htable.del fuel o.keys (o.lenses lens).name) [
    | none ↦ abort
    | some (keys, r) ↦ elim r.found [
      | false ↦ ok (record o { keys = keys }, false)
      | true ↦ remove_lens A (record o { keys = keys }) lens >>= λ o'.
          let l = o'.lenses lens in defer_free A o' l.off (total_len l)
    ]
  ]

  -- The body that `optics_counter_alloc` and its kin share, for a lens of `size` bytes.
  unfoldable pub alloc_new : LensType → ℕ → Optics S → Text → Run (Optics S × Option ℕ)
  unfolding publish
  alloc_new type size o name = lens_alloc A o type size name >>= λ (o1, lens).
      if lens == 0
      then ok (o1, none)
      else (publish o1 lens >>= λ (o2, h). elim h [
        | some l ↦ ok (o2, some l)
        | none ↦ lens_free A o2 lens >>= λ o3. ok (o3, none)
      ])

  -- The body that `optics_counter_alloc_get` and its kin share.
  unfoldable pub alloc_or_get : LensType → ℕ → Optics S → Text → Run (Optics S × Option ℕ)
  unfolding publish_or_get
  alloc_or_get type size o name = lens_alloc A o type size name >>= λ (o1, lens).
      if lens == 0
      then ok (o1, none)
      else (publish_or_get o1 lens >>= λ (o2, l).
          if l == lens then ok (o2, some l) else (lens_free A o2 lens >>= λ o3. ok (o3, some l)))

  -- `optics_counter_alloc`; `struct lens_counter` has two words
  unfoldable pub counter_alloc : Optics S → Text → Run (Optics S × Option ℕ)
  unfolding alloc_new
  counter_alloc = alloc_new counter 16

  -- `optics_counter_alloc_get`
  unfoldable pub counter_alloc_get : Optics S → Text → Run (Optics S × Option ℕ)
  unfolding alloc_or_get
  counter_alloc_get = alloc_or_get counter 16

  -- `optics_quantile_alloc`, before the fields of the quantile are set
  unfoldable pub quantile_alloc : Optics S → Text → Run (Optics S × Option ℕ)
  unfolding alloc_new
  quantile_alloc = alloc_new quantile 48

  -- `optics_quantile_alloc_get`, likewise
  unfoldable pub quantile_alloc_get : Optics S → Text → Run (Optics S × Option ℕ)
  unfolding alloc_or_get
  quantile_alloc_get = alloc_or_get quantile 48

  -- `optics_gauge_alloc`
  unfoldable pub gauge_alloc : Optics S → Text → Run (Optics S × Option ℕ)
  unfolding alloc_new
  gauge_alloc = alloc_new gauge 8

  -- `optics_gauge_alloc_get`
  unfoldable pub gauge_alloc_get : Optics S → Text → Run (Optics S × Option ℕ)
  unfolding alloc_or_get
  gauge_alloc_get = alloc_or_get gauge 8

  -- `optics_dist_alloc`; an epoch of `struct lens_dist` has a lock, a count, a maximum and 200
  -- samples
  unfoldable pub dist_alloc : Optics S → Text → Run (Optics S × Option ℕ)
  unfolding alloc_new
  dist_alloc = alloc_new dist (2 * (8 + 8 + 8 + 200 * 8))

  -- `optics_dist_alloc_get`
  unfoldable pub dist_alloc_get : Optics S → Text → Run (Optics S × Option ℕ)
  unfolding alloc_or_get
  dist_alloc_get = alloc_or_get dist (2 * (8 + 8 + 8 + 200 * 8))
