-- ===== src/Backend/Rest/Published.antt =====
-- src/backend_rest.c: what a poll leaves for the requests.
use optics.Base.{◌≡◌, true, List, [], ◌∷◌, map, none, Text, take, All}
use mathlib.Core.List.{Permᴰ}
use mathlib.Core.List.Permᴰ
use optics.Key.Text.{join}
use optics.Lens.Float.{Float}
use optics.Poller.Values.{Poll}
use optics.Backend.Rest.{Metric, items_of, metric_leb, Rest}

module _ (F : Float) where
  -- Each metric may stand before those behind it.
  pub IsSorted : List (Metric F) → Type 0
  IsSorted [] = Unit {0}
  IsSorted (m ∷ ms) = All (λ x. metric_leb F m x ≡ true) ms × IsSorted ms

  -- the key of a value
  abbrev pub text_of : Poll F → Text
  text_of p = take 255 (join (take 255 (join (take 255 p.prefix) p.host)) p.key)

  -- the metric of a value
  abbrev pub metric_of : Poll F → Metric F
  metric_of p = record { key = take 256 (text_of p); value = p.value }

  -- What a poll publishes: its metrics, sorted by key, and nothing in the making.
  pub record Published (ps : List (Poll F)) (rest : Rest F) : Type 0 where
    pub idle : rest.build ≡ none
    pub sorted : IsSorted (items_of F rest.current)
    pub all : Permᴰ (items_of F rest.current) (map metric_of ps)
