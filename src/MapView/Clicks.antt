-- ===== src/MapView/Clicks.antt =====
-- What the markers of frontend/components/map-markers.tsx show and what a click on them does, and what
-- frontend/components/map-view.tsx puts around the map.
use gps_connector.Prelude.{
  ℕ, ltb, ◌≡◌, sym, ◌∙◌, ◌≢◌, Text, codes, Bool, true, false, not, List, [], ◌∷◌, ◌++◌, Option,
  none, some, find, if◌then◌else◌, text_eq, decimal,
}
use gps_connector.Geo.{Floats}
use gps_connector.Locations.{Status, driving, stationary, VehicleLocation}
use gps_connector.Routes.Stitch.{Position}
use gps_connector.MapView.Days.{Page, shown_vehicles, focus_vehicle, active_vehicle}
use gps_connector.Panel.{status_color}
use gps_connector.Panel.Selection.{has_vehicle, find_with, active_with}

-- The button of a vehicle: its label and its colour.
pub record VehicleButton : Type 0 where
  pub label : Text
  pub color : Text

abbrev status_label : Status → Text
status_label driving = codes "Driving vehicle"
status_label stationary = codes "Stationary vehicle"

unfoldable pub vehicle_marker : Status → VehicleButton
vehicle_marker status = record { label = status_label status; color = status_color status }

-- The button of a cluster: its label, its width and height, the part of the ring that is for those that
-- drive, the number in it and whether that is small.
pub record ClusterButton : Type 0 where
  pub label : Text
  pub size : ℕ
  pub driving_degrees : ℕ
  pub number : ℕ
  pub is_small : Bool

-- `rounded n m` is `Math.round((n / m) * 360)`.
unfoldable pub cluster_marker : (rounded : ℕ → ℕ → ℕ) → (count moving : ℕ) → ClusterButton
cluster_marker rounded count moving = record {
  label = decimal count ++ codes " vehicles";
  size = if ltb count 10 then 44 else if ltb count 100 then 54 else 64;
  driving_degrees = if ltb 0 count then rounded moving count else 0;
  number = count;
  is_small = ltb count 100;
}

module _ (fl : Floats) where
  open fl use {Num, of_nat, add}

  -- Where the camera goes.
  pub record Ease : Type 0 where
    pub center : Position Num
    pub zoom : Num
    pub duration : ℕ

  abbrev cluster_expansion_overshoot : Num
  cluster_expansion_overshoot = of_nat 1

  -- The callback of `expandCluster`, given whether there was an error and the zoom, if there is one.
  unfoldable pub expand_cluster : Bool → Option Num → Position Num → Option Ease
  expand_cluster true zoom coordinates = none
  expand_cluster false none coordinates = none
  expand_cluster false (some zoom) coordinates =
      some (record {
        center = coordinates;
        zoom = add zoom cluster_expansion_overshoot;
        duration = 500;
      })

-- A click on the marker of a vehicle: the vehicle that `onSelect` is called with, if there is one.
unfoldable pub click_vehicle :
    {Num : Type 0} → Text → List (VehicleLocation Num) → Option (VehicleLocation Num)
click_vehicle id vehicles = find (λ v. text_eq v.id id) vehicles

-- What the page returns: that there is no map, or the map with a spinner until it is ready and with a message
-- when the devices could not be loaded.
pub data Around : Type 0 where
  unavailable : (title description : Text) → Around
  map_with : (has_spinner : Bool) → (message : Option Text) → Around

unfoldable pub around_map : (token : Text) → (map_ready failed : Bool) → Around
around_map [] map_ready failed =
    unavailable (codes "Map unavailable") (codes "The map could not be loaded.")
around_map (_ ∷ _) map_ready failed =
    map_with (not map_ready) (if failed then some (codes "Failed to load devices.") else none)

-- A click on the marker of a vehicle that the page shows, with `focusVehicle` as `onSelect`, makes a vehicle
-- with its id the active one, unless the id is empty.
pub click_vehicle-focus_vehicle :
    {Num : Type 0} (id : Text) (p : Page Num)
    → has_vehicle id (shown_vehicles p) ≡ true
    → id ≢ []
    → (v : VehicleLocation Num) × (click_vehicle id (shown_vehicles p) ≡ some v)
      × (v.id ≡ id)
      × (active_vehicle (focus_vehicle v p) ≡ some v)
unfolding click_vehicle
click_vehicle-focus_vehicle id p h full =
    let (w, found, same) = find_with id (shown_vehicles p) h in
    (w, found, same, active_with p w w (rw same found) (λ e. full (sym same ∙ e)))
