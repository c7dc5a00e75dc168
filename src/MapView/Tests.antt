-- ===== src/MapView/Tests.antt =====
-- The theorems about the map page after the choice of a vehicle and its answer, and for some frames of the map.
use gps_connector.Prelude.{
  List, ltb, if◌then◌else◌, get_elem?, true, text_eq, join, ℤ, pos, negsuc, ◌==◌, ==_iff, ◌≤◌,
  false, true, refl, ◌≡◌, ℕ, ◌<◌, ◌+◌, ◌-◌, ◌*◌, codes, [], ◌∷◌, none, some, leb, arith,
}
use gps_connector.Geo.{Floats}
use gps_connector.Hooks.Requests.{start, abort_current, member}
use gps_connector.Routes.Fetch.{VehicleRoute}
use gps_connector.MapView.{displayed_vehicles, RouteKey, Machine, initial, run_effect, loading}
use gps_connector.Locations.{driving, VehicleLocation}
use gps_connector.MapView.Markers.{vehicle_point, cluster_point}
use gps_connector.MapView.Markers.Passes.{Operation, reconciles, prunes}
use gps_connector.Promise.{fulfilled}
use gps_connector.MapView.Days
use gps_connector.MapView.Days.{Page, World}
use gps_connector.MapView.Days.Steps
use gps_connector.MapView.Days.Steps.{picks, renders, focuses, settles, in_flight, HasSource}
use gps_connector.MapView.Days.Settling.{HasOutcome, Reach-HasSource, Reach-settles}
use gps_connector.MapView.DayPicker
use gps_connector.MapView.DayPicker.{
  Dates, IsCalendar, Picker, default_day, offered, back, Reach-IsNotAhead,
}
use gps_connector.MapView.Whole
use gps_connector.MapView.Whole.Agreement.{IsOfVehicle, Reach-IsOfVehicle}
use gps_connector.MapView.Shown.{runs, gives, handle}
use gps_connector.MapView.Shown.Settling.{next}

abbrev whole : Floats
whole = record {
  Num = ℕ;
  of_nat = λ n. n;
  add = λ a b. a + b;
  sub = λ a b. (a - b) + (b - a);
  mul = λ a b. a * b;
  div = λ a b. a;
  pi = 1;
  sin = λ a. a;
  cos = λ a. 1;
  asin = λ a. a;
  sqrt = λ a. a;
  leb = leb;
}

abbrev one_trip : VehicleRoute whole
one_trip = record {
  trips =
      record {
        segments = ((1, 1) ∷ (2, 2) ∷ []) ∷ [];
        distance_meters = 200;
        first_movement = codes "08:00";
        last_movement = codes "09:00";
      }
      ∷ [];
  summary = record {
    distance_meters = 200;
    first_movement = codes "08:00";
    last_movement = codes "09:00";
  };
}

abbrev key : RouteKey
key = record { imei = codes "1"; day = 20000 }

abbrev asked : Machine whole
asked = handle whole (runs (some key)) (initial whole)

abbrev shown : Machine whole
shown = handle whole (gives 0 (some one_trip)) asked

is_sent : 0 < asked.requests.next
unfolding handle run_effect start abort_current
is_sent = omega arith

abbrev frames : List (Operation ℕ)
frames =
    reconciles (vehicle_point (codes "2") driving (1, 1) ∷ cluster_point 7 3 1 (2, 2) ∷ [])
    ∷ reconciles (vehicle_point (codes "1") driving (1, 1) ∷ [])
    ∷ prunes (codes "1" ∷ [])
    ∷ []

-- No vehicle has a position, and times before 50 can be written.
abbrev world : World ℕ
world = record {
  iso = λ t. if ltb t 50 then some [] else none;
  positions = λ id day v. fulfilled [];
}

-- The day before the present one, 20, is picked.
abbrev yesterday : Page ℕ
yesterday = Steps.handle world (picks 19 false) (Days.initial 20)

abbrev request_of_yesterday : List ℕ
request_of_yesterday = in_flight {Num = ℕ} world (picks 19 false) (Days.initial 20) []

yesterday-Reach : Steps.Reach world yesterday request_of_yesterday
yesterday-Reach = Steps.step (picks 19 false) (Days.initial 20) [] (Steps.mount 20) tt

request_is_sent : member 0 request_of_yesterday ≡ true
unfolding Steps.handle Days.handle_day_change Days.day_effect start member abort_current
request_is_sent = refl

Reach-HasSource_example :
    HasSource world
      (Steps.handle world (settles 0) yesterday)
      (in_flight world (settles 0) yesterday request_of_yesterday)
      (Steps.handle world (settles 0) yesterday).day_state
Reach-HasSource_example =
    Reach-HasSource world (Steps.handle world (settles 0) yesterday)
      (in_flight world (settles 0) yesterday request_of_yesterday)
      (Steps.step (settles 0) yesterday request_of_yesterday yesterday-Reach request_is_sent)

is_loading : yesterday.day_state ≡ loading
unfolding Steps.handle Days.handle_day_change Days.day_effect
is_loading = refl

Reach-settles_example :
    (id : ℕ) × (a : Days.Asked ℕ) × (member id request_of_yesterday ≡ true)
    × (get_elem? yesterday.asked id ≡ some a)
    × (a.day ≡ yesterday.selected_day)
    × HasOutcome world
        (Days.located_for world id a)
        (Steps.handle world (settles id) yesterday).day_state
Reach-settles_example =
    Reach-settles world yesterday request_of_yesterday yesterday-Reach is_loading

abbrev moved : ℕ → ℤ → ℕ
moved a (pos n) = a + n
moved a (negsuc n) = a - (n + 1)

-- Dates that are the numbers of their days.
abbrev dates : Dates
dates = record {
  Date = ℕ;
  is_same_day = λ a b. a == b;
  start_of_day = λ a. a;
  add_days = λ a days. moved a days;
  format_day = λ a. [];
}

dates-IsCalendar : IsCalendar dates (λ a. a)
dates-IsCalendar = record {
  same = ==_iff;
  start = λ a. refl;
  next = λ a. omega arith;
  previous = λ a. omega arith;
}

abbrev at_start : Picker dates
at_start = default_day dates 20 19

Reach-IsNotAhead_example :
    (DayPicker.step dates (negsuc 0) at_start).value
    ≤ (DayPicker.step dates (negsuc 0) at_start).today
Reach-IsNotAhead_example =
    Reach-IsNotAhead dates (λ a. a) dates-IsCalendar (DayPicker.step dates (negsuc 0) at_start)
      (offered at_start (DayPicker.step dates (negsuc 0) at_start)
        (DayPicker.mount 20 19 (omega arith)) back)

abbrev moving : VehicleLocation ℕ
moving = record {
  id = codes "1";
  plate = codes "AB12345";
  status = driving;
  coordinates = (12, 55);
  last_update = none;
  make = [];
  model = [];
  fleet_id = [];
  imei = codes "1";
  vehicle_type = none;
  ignition = none;
  associated_location = none;
  fuel_type = none;
  capacity = none;
  leasing_end_date = none;
}

abbrev with_vehicle : Whole.Whole whole world
with_vehicle =
    Whole.handle whole world (Whole.of_page (renders true (moving ∷ [])))
      (Whole.initial whole world 20)

abbrev focused : Whole.Whole whole world
focused = Whole.handle whole world (Whole.of_page (focuses moving)) with_vehicle

abbrev routed : Whole.Whole whole world
routed = Whole.handle whole world (Whole.gives 0 (some one_trip)) focused

route-is_sent : 0 < focused.route.requests.next
unfolding Whole.handle Whole.rendered Whole.same_dependencies Steps.handle Days.rerender
    Days.day_effect Days.focus_vehicle Days.active_vehicle Days.route_key Days.route_refresh_key
    Days.imei_key Days.sort_texts Days.insert_text displayed_vehicles run_effect start abort_current
    text_eq join
route-is_sent = omega arith

Reach-IsOfVehicle_example : IsOfVehicle whole world routed routed.route.status
Reach-IsOfVehicle_example = Reach-IsOfVehicle whole world routed (
    Whole.step (Whole.gives 0 (some one_trip)) focused
      (Whole.step (Whole.of_page (focuses moving)) with_vehicle
        (Whole.step (Whole.of_page (renders true (moving ∷ []))) (Whole.initial whole world 20)
          (Whole.mount 20) tt)
        tt)
      route-is_sent)
