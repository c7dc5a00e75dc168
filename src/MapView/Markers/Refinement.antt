-- ===== src/MapView/Markers/Refinement.antt =====
-- The cache of markers as an implementation of a map from keys to what is drawn.
use gps_connector.Prelude.{Text, Bool, true, List, [], ◌∷◌, Option, none, if◌then◌else◌, has}
use gps_connector.MapView.Markers.{Key, vehicle, cluster}
use gps_connector.MapView.Markers.Passes.{Operation, reconciles, prunes, clears}
use gps_connector.MapView.Markers.Keys.{first_feature}
use gps_connector.MapView.Markers.Drawn.{Mark}

abbrev is_listed : List Text → Key → Bool
is_listed ids (vehicle id) = has id ids
is_listed ids (cluster _) = true

module _ {Num : Type 0} where
  -- The abstract view: a mark or none for each key, without a cache.
  abbrev pub specified : Operation Num → (Key → Option (Mark Num)) → Key → Option (Mark Num)
  specified (reconciles features) marks k = first_feature k features
  specified (prunes ids) marks k = if is_listed ids k then marks k else none
  specified clears marks k = none

  abbrev pub specified_run :
      List (Operation Num) → (Key → Option (Mark Num)) → Key → Option (Mark Num)
  specified_run [] marks k = marks k
  specified_run (o ∷ os) marks k = specified_run os (specified o marks) k
