-- ===== src/Backend/Rest/Json.antt =====
-- src/backend_rest.c: the text that a request gets.
use optics.Base.{
  ◌+◌, ◌<◌, ◌^◌, ◌≡◌, ◌≢◌, Bool, true, false, List, [], ◌∷◌, ◌++◌, Text, length, if◌then◌else◌,
}
use optics.Buffer
use optics.Buffer.{Buffer}
use optics.Buffer.Contents
use optics.Lens.Histo
use optics.Lens.Float.{Float}
use optics.Poller.Values.{Value, histo}
use optics.Crest.Response.{Response}
use optics.Backend.Rest.Object.{metric_text}
use optics.Backend.Rest.{Metric, Rest}

module _ (F : Float) (show : Float.D F → Text) where
  -- the metrics with a comma between each two; the flag says that one stands before
  unfoldable pub list_text : Bool → List (Metric F) → Text
  list_text later [] = []
  list_text later (m ∷ ms) =
      let rest = list_text true ms in
      (if later then b',' ∷ [] else []) ++ (metric_text F show m ++ rest)

  -- A histogram has bounds.
  abbrev pub IsBounded : Metric F → Type 0
  IsBounded m = (v : Histo.Value) → m.value ≡ histo v → v.buckets_len ≢ 0

  -- A metric whose text has a length that fits an `int` with one more.
  pub record IsPrintable (m : Metric F) : Type 0 where
    pub bounded : IsBounded m
    pub int : length (metric_text F show m) + 1 < 2 ^ 31

  -- the whole text
  abbrev body : List (Metric F) → Text
  body ms = (b'{' ∷ []) ++ (list_text false ms ++ (b'}' ∷ []))
