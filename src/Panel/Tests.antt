-- ===== src/Panel/Tests.antt =====
-- The theorems about the panel at two vehicles, a choice and an address.
use gps_connector.Prelude.{
  ◌&&◌, ℕ, ◌/◌, ◌<◌, ◌≡◌, ◌≢◌, refl, codes, Text, List, [], ◌∷◌, filter, none, some, Bool, true,
  ltb, decimal, text_eq, arith,
}
use mathlib.Core.List.{Perm}
use gps_connector.Locations.{VehicleLocation, driving, stationary}
use gps_connector.Panel.{all, found_in, visible_vehicles}
use gps_connector.Panel.Order.{asks_for, IsDrivingFirst, visible_vehicles-IsDrivingFirst}
use gps_connector.Promise.{fulfilled}
use gps_connector.Hooks.Requests.{start, abort_current}
use gps_connector.MapView.{displayed_vehicles}
use gps_connector.MapView.Days.{
  Page, initial, shown_vehicles, focus_vehicle, clear_vehicle, active_vehicle,
}
use gps_connector.Panel.Details.{Formats}
use gps_connector.Panel.View.{Search, no_search, handle_select, details, panel_content, panel_props}
use gps_connector.Panel.Selection.{has_vehicle, handle_select-focus_vehicle}
use gps_connector.Panel.Addresses.{
  Lookup, Call, address_effect, fresh, on_address, settles, mount, HasAnswer, Reach-HasAnswer,
}

abbrev parked : VehicleLocation ℕ
parked = record {
  id = codes "1";
  plate = codes "AB12345";
  status = stationary;
  coordinates = (12, 55);
  last_update = none;
  make = [];
  model = [];
  fleet_id = [];
  imei = codes "1";
  vehicle_type = none;
  ignition = none;
  associated_location = none;
  fuel_type = none;
  capacity = none;
  leasing_end_date = none;
}

abbrev two_vehicles : List (VehicleLocation ℕ)
two_vehicles = parked ∷ record parked { status = driving; imei = codes "2"; id = codes "2" } ∷ []

abbrev as_is : Text → Text
as_is s = s

abbrev any_order : Text → Text → Bool
any_order a b = true

visible_vehicles-IsDrivingFirst_example :
    IsDrivingFirst (visible_vehicles as_is any_order all (codes "AB") two_vehicles)
    × Perm
        (visible_vehicles as_is any_order all (codes "AB") two_vehicles)
        (filter (λ v. found_in as_is (codes "AB") v && asks_for all v.status) two_vehicles)
visible_vehicles-IsDrivingFirst_example =
    visible_vehicles-IsDrivingFirst any_order as_is all (codes "AB") two_vehicles

abbrev formats : Formats ℕ
formats = record {
  to_fixed = λ digits n. decimal n;
  text_of = decimal;
  rounded = decimal;
  thousandth = λ n. n / 1000;
  is_below = ltb;
  day_text = λ s. s;
  clock = λ s. s;
  since = λ s. s;
}

abbrev page : Page ℕ
page = record (initial {Num = ℕ} 20) { vehicles = two_vehicles }

parked-is_there : has_vehicle parked.id (shown_vehicles page) ≡ true
unfolding displayed_vehicles text_eq
parked-is_there = refl

abbrev typed : Search
typed = record no_search { query = codes "AB" }

handle_select-focus_vehicle_example :
    ((w : VehicleLocation ℕ) × (w.id ≡ parked.id)
      × (panel_content as_is any_order formats
            (handle_select typed)
            (panel_props [] true (focus_vehicle parked page))
          ≡ details w)
      × (parked.id ≢ [] → active_vehicle (focus_vehicle parked page) ≡ some w))
    × ((w : VehicleLocation ℕ)
        → panel_content as_is any_order formats typed (panel_props [] true (clear_vehicle page))
          ≢ details w)
handle_select-focus_vehicle_example =
    handle_select-focus_vehicle as_is any_order formats [] true typed page parked refl
      parked-is_there

abbrev found : Call
found = fulfilled (record {
  status = 200;
  text = [];
  json = some (
      some (record {
        full_address = some (codes "Street 1");
        name = none;
        postcode = none;
        place = none;
        locality = none;
      }));
})

abbrev here : Lookup ℕ
here = address_effect decimal (codes "token") (fresh decimal (codes "token") (12, 55))

sent_here : 0 < here.requests.next
unfolding address_effect start abort_current
sent_here = omega arith

abbrev answered : Lookup ℕ
answered = on_address decimal (codes "token") 0 found here

Reach-HasAnswer_example : HasAnswer decimal (codes "token") (λ id. found) answered answered.address
Reach-HasAnswer_example =
    Reach-HasAnswer decimal (codes "token") (λ id. found) answered
      (settles 0 here (mount (12, 55)) sent_here)
