-- ===== src/MapView/Whole.antt =====
-- The map page as a whole: the day and the vehicles with the effect for the route, in
-- frontend/components/map-view.tsx. The effect runs when one of its dependencies changes.
pub mod Agreement
use gps_connector.Prelude.{
  ◌≡◌, refl, ap, sym, ◌∙◌, inl, inr, ℕ, Text, Bool, true, false, ◌&&◌, List, [], ◌∷◌, Option, none,
  some, ◌==◌, ==_iff, if◌then◌else◌, if_intro, text_eq, text_eq_sound, arith,
}
use gps_connector.Geo.{Floats}
use gps_connector.Routes.Fetch.{VehicleRoute}
use gps_connector.Locations.{VehicleLocation, map_option}
use gps_connector.MapView.{RouteKey, RouteStatus, loaded, Machine, run_effect}
use gps_connector.MapView
use gps_connector.MapView.Days.{Page, World, active_vehicle, route_refresh_key, route_key}
use gps_connector.MapView.Days
use gps_connector.MapView.Days.Steps
use gps_connector.MapView.Shown

abbrev same_text : Option Text → Option Text → Bool
same_text none none = true
same_text (some s) (some t) = text_eq s t
same_text _ _ = false

module _ {Num : Type 0} where
  -- `activeImei`
  abbrev pub active_imei : Page Num → Option Text
  active_imei p = map_option (λ (v : VehicleLocation Num). v.imei) (active_vehicle p)

  -- Whether the dependencies of the effect for the route are those of the last time.
  unfoldable pub same_dependencies : Page Num → Page Num → Bool
  same_dependencies p q =
      same_text (active_imei p) (active_imei q)
      && same_text (route_refresh_key (active_vehicle p)) (route_refresh_key (active_vehicle q))
      && p.selected_day == q.selected_day

module _ (fl : Floats) (world : World fl.Num) where
  open fl use {Num}

  pub record Whole : Type 0 where
    pub page : Page Num
    pub route : Machine fl

  abbrev pub initial : ℕ → Whole
  initial today = record { page = Days.initial today; route = MapView.initial fl }

  -- What happens to the page: to its day and vehicles, or to its route, where the effect does not run on
  -- its own account.
  pub data Event : Type 0 where
    of_page : Steps.Event Num → Event
    gives : ℕ → Option (VehicleRoute fl) → Event
    fails : ℕ → Event
    chooses : Option ℕ → Event

  -- The page is rendered with new variables, and the effect for the route runs if it has to.
  unfoldable pub rendered : Page Num → Whole → Whole
  rendered p w = record {
    page = p;
    route = if same_dependencies w.page p then w.route else run_effect fl (route_key p) w.route;
  }

  unfoldable pub handle : Event → Whole → Whole
  handle (of_page e) w = rendered (Steps.handle world e w.page) w
  handle (gives id route) w = record w { route = Shown.handle fl (Shown.gives id route) w.route }
  handle (fails id) w = record w { route = Shown.handle fl (Shown.fails id) w.route }
  handle (chooses index) w = record w { route = Shown.handle fl (Shown.chooses index) w.route }

  abbrev pub Allowed : Event → Whole → Type 0
  Allowed (of_page e) w = Unit
  Allowed (gives id route) w = Shown.Allowed fl w.route (Shown.gives id route)
  Allowed (fails id) w = Shown.Allowed fl w.route (Shown.fails id)
  Allowed (chooses index) w = Shown.Allowed fl w.route (Shown.chooses index)

  pub data Reach : Whole → Type 0 where
    mount : (today : ℕ) → Reach (initial today)
    step : (e : Event) (w : Whole) → Reach w → Allowed e w → Reach (handle e w)
