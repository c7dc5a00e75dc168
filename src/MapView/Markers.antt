-- ===== src/MapView/Markers.antt =====
-- The markers of the vehicles: frontend/components/map-markers.tsx. The cache is a list of keys with
-- entries; a marker stands for its place, for what is rendered in it and for being on the map or not.
pub mod Keys
pub mod Drawn
pub mod Sweep
pub mod Passes
pub mod Refinement
use gps_connector.Prelude.{
  ℕ, Text, Bool, true, false, ◌&&◌, ◌||◌, not, List, [], ◌∷◌, ◌++◌, map, Option, none, some, ◌==◌,
  if◌then◌else◌, text_eq, has,
}
use gps_connector.Locations.{Status, driving, stationary, VehicleLocation}
use gps_connector.Routes.Stitch.{Position}

-- `v:` and an id, or `c:` and the number of a cluster.
pub data Key : Type 0 where
  vehicle : Text → Key
  cluster : ℕ → Key

unfoldable pub key_eq : Key → Key → Bool
key_eq (vehicle a) (vehicle b) = text_eq a b
key_eq (cluster a) (cluster b) = a == b
key_eq _ _ = false

-- What a marker shows: a vehicle's status, or how many vehicles a cluster has and how many are driving.
pub data Content : Type 0 where
  vehicle : Status → Content
  cluster : (count moving : ℕ) → Content

pub record Entry (Num : Type 0) : Type 0 where
  pub content : Content
  pub rendered : Content
  pub place : Position Num
  pub on_screen : Bool

-- The features of the source: points of a cluster or a vehicle, and others.
pub data Feature (Num : Type 0) : Type 0 where
  cluster_point : (id count moving : ℕ) (place : Position Num) → Feature Num
  vehicle_point : (id : Text) (status : Status) (place : Position Num) → Feature Num
  other : Feature Num

abbrev same_status : Status → Status → Bool
same_status driving driving = true
same_status stationary stationary = true
same_status _ _ = false

abbrev pub same_content : Content → Content → Bool
same_content (vehicle s) (vehicle t) = same_status s t
same_content (cluster n d) (cluster m e) = n == m && d == e
same_content _ _ = false

-- Whether both are of a vehicle, or both of a cluster.
abbrev pub same_kind : Content → Content → Bool
same_kind (vehicle _) (vehicle _) = true
same_kind (cluster _ _) (cluster _ _) = true
same_kind _ _ = false

unfoldable pub has_key : Key → List Key → Bool
has_key k [] = false
has_key k (j ∷ js) = key_eq j k || has_key k js

abbrev keeps : List Text → Key → Content → Bool
keeps ids k (cluster _ _) = true
keeps ids (vehicle id) (vehicle _) = has id ids
keeps ids (cluster n) (vehicle _) = false

abbrev pub Cache : Type 0 → Type 0
Cache Num = List (Key × Entry Num)

-- What a pass over the cache leaves: the cache, and the markers that are on the map though the cache has
-- them no longer.
pub record Layer (Num : Type 0) : Type 0 where
  pub cache : Cache Num
  pub stray : List (Entry Num)

module _ {Num : Type 0} where
  abbrev pub no_layer : Layer Num
  no_layer = record { cache = []; stray = [] }

  -- `cache.get(key)`
  unfoldable pub lookup : Key → Cache Num → Option (Entry Num)
  lookup k [] = none
  lookup k ((j, e) ∷ cache) = let rest = lookup k cache in if key_eq j k then some e else rest

  -- `cache.set(key, entry)`
  unfoldable pub put : Key → Entry Num → Cache Num → Cache Num
  put k e [] = (k, e) ∷ []
  put k e ((j, f) ∷ cache) =
      let rest = put k e cache in if key_eq j k then (j, e) ∷ cache else (j, f) ∷ rest

  abbrev created : Content → Position Num → Entry Num
  created content place = record {
    content = content;
    rendered = content;
    place = place;
    on_screen = true;
  }

  -- A cached marker is moved, and rendered again if what it shows has changed.
  abbrev renewed : Content → Position Num → Entry Num → Entry Num
  renewed content place e = record {
    content = content;
    rendered = if same_content e.content content then e.rendered else content;
    place = place;
    on_screen = true;
  }

  -- An entry of the other kind is not used again, and its marker is not followed further.
  entry_for : Content → Position Num → Option (Entry Num) → Entry Num
  entry_for content place none = created content place
  entry_for content place (some e) =
      if same_kind e.content content then renewed content place e else created content place

  pub take_point : Key → Content → Position Num → List Key × Cache Num → List Key × Cache Num
  unfolding entry_for
  take_point k content place (present, cache) =
      if has_key k present
      then (present, cache)
      else (k ∷ present, put k (entry_for content place (lookup k cache)) cache)

  -- One round of the loop over the features, with the keys that are present so far.
  unfoldable pub take_feature : Feature Num → List Key × Cache Num → List Key × Cache Num
  unfolding take_point
  take_feature other state = state
  take_feature (cluster_point id count moving place) state =
      take_point (cluster id) (cluster count moving) place state
  take_feature (vehicle_point id status place) state =
      take_point (vehicle id) (vehicle status) place state

  unfoldable pub take_features : List (Feature Num) → List Key × Cache Num → List Key × Cache Num
  take_features [] state = state
  take_features (f ∷ fs) state = take_features fs (take_feature f state)

  abbrev kept : Key → Entry Num → Layer Num → Layer Num
  kept k e layer = record layer { cache = (k, e) ∷ layer.cache }

  -- `marker.remove()`
  abbrev pub removed : Entry Num → Entry Num
  removed e = record e { on_screen = false }

  -- `cache.delete(key)`, after which a marker that is on the map still stays there.
  abbrev dropped : Entry Num → Layer Num → Layer Num
  dropped e layer = if e.on_screen then record layer { stray = e ∷ layer.stray } else layer

  abbrev swept : Content → Key → Entry Num → Layer Num → Layer Num
  swept (vehicle _) k e rest = kept k (removed e) rest
  swept (cluster _ _) k e rest = dropped (removed e) rest

  -- The loop over the cache: what is not present goes off the map, and a cluster out of the cache.
  unfoldable pub sweep : List Key → Cache Num → Layer Num
  sweep present [] = no_layer
  sweep present ((k, e) ∷ cache) =
      let rest = sweep present cache in
      if has_key k present then kept k e rest else swept e.content k e rest

  unfoldable pub reconcile_live_markers : List (Feature Num) → Cache Num → Layer Num
  reconcile_live_markers features cache =
      let (present, cache') = take_features features ([], cache) in sweep present cache'

  -- `pruneLiveMarkers`, given the ids of the vehicles.
  unfoldable pub prune_live_markers : List Text → Cache Num → Layer Num
  prune_live_markers ids [] = no_layer
  prune_live_markers ids ((k, e) ∷ cache) =
      let rest = prune_live_markers ids cache in
      if keeps ids k e.content then kept k e rest else dropped (removed e) rest

  -- `clearLiveMarkers`: every marker is taken off the map and then out of the cache.
  unfoldable pub clear_live_markers : Cache Num → Layer Num
  clear_live_markers [] = no_layer
  clear_live_markers ((k, e) ∷ cache) = dropped (removed e) (clear_live_markers cache)

  -- `vehiclesToFeatures`
  unfoldable pub vehicles_to_features : List (VehicleLocation Num) → List (Feature Num)
  vehicles_to_features vehicles = map (λ v. vehicle_point v.id v.status v.coordinates) vehicles
