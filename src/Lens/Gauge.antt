-- ===== src/Lens/Gauge.antt =====
-- src/lens_gauge.c: the last value set, whatever the epoch.
use optics.Base.{ℕ, ◌≡◌, refl, ap, ◌∙◌, List, [], ◌∷◌}
use optics.Lens.Float.{Float}

module _ (F : Float) where
  open F use {D, to_bits, of_bits, of_bits-to_bits}

  -- `struct lens_gauge`, the bits of a double
  pub record Gauge : Type 0 where
    pub value : ℕ

  -- `lens_gauge_set`
  unfoldable pub set : Gauge → ℕ → D → Gauge
  set g epoch v = record { value = to_bits v }

  -- `lens_gauge_read`: the value is kept, since it holds until it is set again
  unfoldable pub read : Gauge → ℕ → D
  read g epoch = of_bits g.value

  -- The last of a row of values, or the first argument.
  pub set_all : Gauge → List (ℕ × D) → Gauge
  set_all g [] = g
  set_all g ((epoch, v) ∷ vs) = set_all (set g epoch v) vs

  pub last : D → List (ℕ × D) → D
  last d [] = d
  last d ((epoch, v) ∷ vs) = last v vs

  -- A read in any epoch gives the last value that was set in any epoch.
  pub read-set_all :
      (vs : List (ℕ × D)) (g : Gauge) (epoch : ℕ)
      → read (set_all g vs) epoch ≡ last (read g epoch) vs
  unfolding read set set_all last
  read-set_all [] g epoch = refl
  read-set_all ((e, v) ∷ vs) g epoch =
      read-set_all vs (set g e v) epoch ∙ ap (λ d. last d vs) (of_bits-to_bits v)
