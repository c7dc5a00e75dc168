-- ===== src/MapView.antt =====
-- The map page: frontend/components/map-view.tsx, its state and its effects once the map is ready.
-- What is drawn is a list of features; the map library is not modelled.
pub mod Shown
pub mod Markers
pub mod Days
pub mod DayPicker
pub mod Drawing
pub mod Whole
pub mod Clicks
mod Tests
use gps_connector.Prelude.{
  ℕ, Text, Bool, true, false, ◌&&◌, not, List, [], ◌∷◌, ◌++◌, map, Option, none, some, leb, ◌==◌,
  if◌then◌else◌, length, get_elem?, filter, text_eq,
}
use gps_connector.Geo.{Floats}
use gps_connector.Routes.Stitch.{Position, last?, first?}
use gps_connector.Routes.Fetch.{RouteTrip, VehicleRoute}
use gps_connector.Locations.{VehicleLocation}
use gps_connector.Hooks.Requests.{Requests, no_requests, is_aborted, abort_current, start}

-- The vehicle and the day that a route is for: `routeKey`.
pub record RouteKey : Type 0 where
  pub imei : Text
  pub day : ℕ

same_day : ℕ → ℕ → Text → Text → Bool
same_day d e imei imei' = text_eq imei imei' && d == e

-- `drawnRouteKeyRef.current === routeKey`
unfoldable pub is_drawn : Option RouteKey → RouteKey → Bool
unfolding same_day
is_drawn none key = false
is_drawn (some drawn) key = same_day drawn.day key.day drawn.imei key.imei

module _ (fl : Floats) where
  open fl use {Num}

  pub data RouteStatus : Type 0 where
    idle loading empty error : RouteStatus
    loaded : VehicleRoute fl → RouteStatus

  -- The variables of the route, with the key of each request that was sent, in order.
  pub record Machine : Type 0 where
    pub active : Option RouteKey
    pub drawn : Option RouteKey
    pub selected_trip : Option ℕ
    pub status : RouteStatus
    pub requests : Requests
    pub asked : List RouteKey

  abbrev pub initial : Machine
  initial = record {
    active = none;
    drawn = none;
    selected_trip = none;
    status = idle;
    requests = no_requests;
    asked = [];
  }

  -- The effect and its clean-up where no vehicle is active.
  abbrev pub without_vehicle : Machine → Machine
  without_vehicle m = record m {
    active = none;
    drawn = none;
    selected_trip = none;
    status = idle;
    requests = abort_current m.requests;
  }

  -- The part of the effect before the request for a key.
  abbrev pub cleared : RouteKey → Machine → Machine
  cleared key m =
      if is_drawn m.drawn key
      then m
      else record m { drawn = none; selected_trip = none; status = loading }

  abbrev pub with_request : RouteKey → Machine → Machine
  with_request key m = record m {
    active = some key;
    requests = start m.requests;
    asked = m.asked ++ key ∷ [];
  }

  -- The effect, which runs when the active vehicle, its last position or the day changes.
  unfoldable pub run_effect : Option RouteKey → Machine → Machine
  run_effect none m = without_vehicle m
  run_effect (some key) m = with_request key (cleared key m)

  -- `setSelectedTrip((prev) => prev !== null && prev >= route.trips.length ? null : prev)`
  abbrev pub kept_trip : ℕ → Option ℕ → Option ℕ
  kept_trip count none = none
  kept_trip count (some index) = if leb count index then none else some index

  abbrev pub shown_route : Option RouteKey → VehicleRoute fl → Machine → Machine
  shown_route key route m = record m {
    drawn = key;
    selected_trip = kept_trip (length route.trips) m.selected_trip;
    status = loaded route;
  }

  answered : Option RouteKey → Option (VehicleRoute fl) → Machine → Machine
  answered key none m = record m { drawn = key; status = empty }
  answered key (some route) m = shown_route key route m

  -- The rest of the effect, once `fetchVehicleRoute` has given a route or none.
  unfoldable pub on_route : ℕ → Option (VehicleRoute fl) → Machine → Machine
  unfolding answered
  on_route id route m =
      if is_aborted m.requests id then m else answered (get_elem? m.asked id) route m

  abbrev failed_state : Machine → Machine
  failed_state m = record m { drawn = none; status = error }

  unfoldable pub on_failure : ℕ → Machine → Machine
  on_failure id m = if is_aborted m.requests id then m else failed_state m

  -- `handleTripChange`
  unfoldable pub handle_trip_change : Option ℕ → Machine → Machine
  handle_trip_change index m = record m { selected_trip = index }

  -- The trips that are drawn, all of them where none is selected or the selected one is not there.
  unfoldable pub drawn_trips : Option ℕ → List (RouteTrip fl) → List (RouteTrip fl)
  drawn_trips none trips = trips
  drawn_trips (some index) trips = elim (get_elem? trips index) [
    | none ↦ trips
    | some trip ↦ trip ∷ []
  ]

  pub data Feature : Type 0 where
    route : List (Position Num) → Feature
    start_point : Position Num → Feature
    end_point : Position Num → Feature

  abbrev end_feature : Option (Position Num) → List Feature
  end_feature none = []
  end_feature (some p) = end_point p ∷ []

  unfoldable pub route_to_features :
      List (List (Position Num)) → Position Num → Option (Position Num) → List Feature
  route_to_features segments start end = map route segments ++ start_point start ∷ end_feature end

-- The vehicles of the map's layer, without the active one while one of its trips is selected.
unfoldable pub layer_vehicles :
    {Num : Type 0}
    → Option ℕ
    → Option Text
    → List (VehicleLocation Num)
    → List (VehicleLocation Num)
layer_vehicles none active vehicles = vehicles
layer_vehicles (some _) none vehicles = vehicles
layer_vehicles (some _) (some id) vehicles = filter (λ v. not (text_eq v.id id)) vehicles

pub data DayState (Num : Type 0) : Type 0 where
  current loading error : DayState Num
  loaded : List (VehicleLocation Num) → DayState Num

unfoldable pub displayed_vehicles :
    {Num : Type 0} → Bool → List (VehicleLocation Num) → DayState Num → List (VehicleLocation Num)
displayed_vehicles true vehicles day = vehicles
displayed_vehicles false vehicles (loaded located) = located
displayed_vehicles false vehicles _ = []
