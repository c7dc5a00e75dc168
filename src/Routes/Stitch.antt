-- ===== src/Routes/Stitch.antt =====
-- Joining the matched pieces of a trip: `stitchSegments` and `gapMeters` of
-- frontend/lib/vehicle-routes.ts. A GeoJSON position is its longitude and latitude.
pub mod Joined
use gps_connector.Prelude.{
  ℕ, Bool, true, false, Option, none, some, List, [], ◌∷◌, ◌++◌, if◌then◌else◌,
}
use mathlib.Core.Option
use gps_connector.Geo.{Floats, Coordinates, haversine_meters}
use gps_connector.Routes.{stitch_max_gap_meters}

abbrev pub Position : Type 0 → Type 0
Position Num = Num × Num

module _ {A : Type 0} where
  abbrev pub last? : List A → Option A
  last? [] = none
  last? (x ∷ []) = some x
  last? (x ∷ y ∷ xs) = last? (y ∷ xs)

  abbrev pub first? : List A → Option A
  first? [] = none
  first? (x ∷ _) = some x

module _ (fl : Floats) where
  open fl use {Num}

  abbrev pub point : Position Num → Coordinates Num
  point p = record { latitude = p.1; longitude = p.0 }

  abbrev between : Option (Position Num) → Option (Position Num) → Option Num
  between none q = none
  between (some p) none = none
  between (some p) (some q) = some (haversine_meters fl (point p) (point q))

  -- `none` where taking an empty segment apart would throw.
  unfoldable pub gap_meters : List (Position Num) → List (Position Num) → Option Num
  gap_meters previous next = between (last? previous) (first? next)

  abbrev pub is_small : Num → Bool
  is_small gap = fl.leb gap (fl.of_nat stitch_max_gap_meters)

  joined :
      List (Position Num) → List (Position Num) → Option Num → Option (List (List (Position Num)))
  joined previous segment none = none
  joined previous segment (some gap) =
      some (if is_small gap then (previous ++ segment) ∷ [] else previous ∷ segment ∷ [])

  abbrev pub onto :
      List (Position Num)
      → Option (List (List (Position Num)))
      → Option (List (List (Position Num)))
  onto s none = none
  onto s (some ss) = some (s ∷ ss)

  -- One round of the loop: only the last of the stitched segments is looked at.
  unfoldable pub stitch_push :
      List (List (Position Num)) → List (Position Num) → Option (List (List (Position Num)))
  unfolding joined
  stitch_push [] segment = some (segment ∷ [])
  stitch_push (previous ∷ []) segment = joined previous segment (gap_meters previous segment)
  stitch_push (s ∷ t ∷ ss) segment = onto s (stitch_push (t ∷ ss) segment)

  unfoldable pub stitch_from :
      Option (List (List (Position Num)))
      → List (List (Position Num))
      → Option (List (List (Position Num)))
  stitch_from stitched [] = stitched
  stitch_from none (segment ∷ segments) = none
  stitch_from (some stitched) (segment ∷ segments) =
      stitch_from (stitch_push stitched segment) segments

  unfoldable pub stitch_segments : List (List (Position Num)) → Option (List (List (Position Num)))
  stitch_segments segments = stitch_from (some []) segments
