-- ===== src/MapView/Days.antt =====
-- The chosen day and the vehicles of the map page: frontend/components/map-view.tsx, the effect for a day,
-- `handleDayChange`, `imeiKey`, `activeVehicle` and `routeRefreshKey`. An effect is taken to run at
-- once with the change that it depends on. A day is a number.
pub mod Steps
pub mod Sound
pub mod Settling
use gps_connector.Prelude.{
  ℕ, Text, codes, Bool, true, false, ◌&&◌, not, List, [], ◌∷◌, ◌++◌, map, Option, none, some, ltb,
  ◌==◌, if◌then◌else◌, find, text_eq, join, or_else, is_none,
}
use gps_connector.Promise.{Settled, fulfilled, rejected}
use gps_connector.Client.{PositionRow}
use gps_connector.Locations.{
  Status, driving, stationary, VehicleLocation, PendingDevice, fetch_day_vehicle_locations,
}
use gps_connector.Hooks.Requests.{Requests, no_requests, is_aborted, abort_current, start}
use gps_connector.MapView.{DayState, current, loading, error, loaded, displayed_vehicles, RouteKey}

-- The order of `sort()`, by code units.
unfoldable pub text_le : Text → Text → Bool
text_le [] t = true
text_le (a ∷ s) [] = false
text_le (a ∷ s) (b ∷ t) = if a == b then text_le s t else ltb a b

unfoldable pub insert_text : Text → List Text → List Text
insert_text s [] = s ∷ []
insert_text s (t ∷ ts) = let rest = insert_text s ts in if text_le s t then s ∷ t ∷ ts else t ∷ rest

unfoldable pub sort_texts : List Text → List Text
sort_texts [] = []
sort_texts (s ∷ ss) = insert_text s (sort_texts ss)

-- The day and the vehicles that a request is for.
pub record Asked (Num : Type 0) : Type 0 where
  pub day : ℕ
  pub vehicles : List (VehicleLocation Num)

pub record Page (Num : Type 0) : Type 0 where
  pub selected_day : ℕ
  pub is_current_day : Bool
  pub vehicles : List (VehicleLocation Num)
  pub active_vehicle_id : Option Text
  pub day_state : DayState Num
  pub requests : Requests
  pub asked : List (Asked Num)

-- The text of a time, which may be out of range, and what `getPositions` settles with in the request of this
-- number, for the day and a vehicle.
pub record World (Num : Type 0) : Type 0 where
  pub iso : ℕ → Option Text
  pub positions : (id day : ℕ) → VehicleLocation Num → Settled (List (PositionRow Num))

abbrev pub same_bool : Bool → Bool → Bool
same_bool true b = b
same_bool false b = not b

abbrev refresh_key : Status → Option Text → Text
refresh_key driving last_update = or_else last_update (codes "driving")
refresh_key stationary last_update = codes "stationary"

abbrev pub key_for : ℕ → Text → Option RouteKey
key_for day [] = none
key_for day (c ∷ s) = some (record { imei = c ∷ s; day = day })

module _ {Num : Type 0} where
  unfoldable pub imei_key : List (VehicleLocation Num) → Text
  imei_key vehicles = join (codes ",") (sort_texts (map (λ v. v.imei) vehicles))

  -- The page on the present day, without vehicles.
  abbrev pub initial : ℕ → Page Num
  initial today = record {
    selected_day = today;
    is_current_day = true;
    vehicles = [];
    active_vehicle_id = none;
    day_state = current;
    requests = no_requests;
    asked = [];
  }

  abbrev pub with_current : Page Num → Page Num
  with_current p = record p { day_state = current; requests = abort_current p.requests }

  abbrev pub with_request : Page Num → Page Num
  with_request p = record p {
    day_state = loading;
    requests = start p.requests;
    asked = p.asked ++ record { day = p.selected_day; vehicles = p.vehicles } ∷ [];
  }

  -- The effect, after the clean-up of the one before it.
  unfoldable pub day_effect : Page Num → Page Num
  day_effect p = if p.is_current_day then with_current p else with_request p

  abbrev pub on_day : ℕ → Bool → Page Num → Page Num
  on_day day is_today p = record p {
    selected_day = day;
    is_current_day = is_today;
    active_vehicle_id = none;
  }

  unfoldable pub handle_day_change : ℕ → Bool → Page Num → Page Num
  handle_day_change day is_today p =
      if day == p.selected_day then p else day_effect (on_day day is_today p)

  abbrev pub seen : Bool → List (VehicleLocation Num) → Page Num → Page Num
  seen is_today vehicles p = record p { is_current_day = is_today; vehicles = vehicles }

  -- The page is rendered with the vehicles of the devices, at a time when the selected day is the present
  -- one or not.
  unfoldable pub rerender : Bool → List (VehicleLocation Num) → Page Num → Page Num
  rerender is_today vehicles p =
      if same_bool is_today p.is_current_day && text_eq (imei_key vehicles) (imei_key p.vehicles)
      then seen is_today vehicles p
      else day_effect (seen is_today vehicles p)

  abbrev pub state_of : Settled (List (VehicleLocation Num)) → DayState Num
  state_of (fulfilled located) = loaded located
  state_of (rejected _) = error

  -- What a request gives, by its number: the answers for the day and the vehicles that it was started with.
  abbrev pub located_for : World Num → ℕ → Asked Num → Settled (List (VehicleLocation Num))
  located_for world id a =
      fetch_day_vehicle_locations world.iso (world.positions id a.day) a.vehicles

  -- The rest of the effect, once `fetchDayVehicleLocations` has settled.
  unfoldable pub on_located : ℕ → Settled (List (VehicleLocation Num)) → Page Num → Page Num
  on_located id located p =
      if is_aborted p.requests id then p else record p { day_state = state_of located }

  -- `focusVehicle`, without the flight of the camera.
  unfoldable pub focus_vehicle : VehicleLocation Num → Page Num → Page Num
  focus_vehicle v p = record p { active_vehicle_id = some v.id }

  -- `onClear`
  unfoldable pub clear_vehicle : Page Num → Page Num
  clear_vehicle p = record p { active_vehicle_id = none }

  abbrev pub shown_vehicles : Page Num → List (VehicleLocation Num)
  shown_vehicles p = displayed_vehicles p.is_current_day p.vehicles p.day_state

  abbrev pub vehicle_with : Option Text → List (VehicleLocation Num) → Option (VehicleLocation Num)
  vehicle_with none vehicles = none
  vehicle_with (some []) vehicles = none
  vehicle_with (some (c ∷ s)) vehicles = find (λ v. text_eq v.id (c ∷ s)) vehicles

  unfoldable pub active_vehicle : Page Num → Option (VehicleLocation Num)
  active_vehicle p = vehicle_with p.active_vehicle_id (shown_vehicles p)

  unfoldable pub route_refresh_key : Option (VehicleLocation Num) → Option Text
  route_refresh_key none = none
  route_refresh_key (some v) = some (refresh_key v.status v.last_update)

  -- What the effect for the route runs with: the active vehicle's IMEI, if it is not empty, and the day.
  unfoldable pub route_key : Page Num → Option RouteKey
  route_key p = elim (active_vehicle p) [ none ↦ none | some v ↦ key_for p.selected_day v.imei ]

  -- `listLoading` and `listError`
  unfoldable pub list_loading : Bool → Bool → DayState Num → Bool
  list_loading true devices_loaded day = not devices_loaded
  list_loading false devices_loaded loading = true
  list_loading false devices_loaded _ = false

  unfoldable pub list_error : Bool → DayState Num → Bool
  list_error true day = false
  list_error false error = true
  list_error false _ = false

-- The devices without a position, which the panel has on the present day only.
unfoldable pub shown_pending : Bool → List PendingDevice → List PendingDevice
shown_pending true pending = pending
shown_pending false pending = []
