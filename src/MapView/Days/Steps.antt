-- ===== src/MapView/Days/Steps.antt =====
-- What happens to the day of the map page.
use gps_connector.Prelude.{
  ◌≡◌, ℕ, ◌<◌, Bool, true, false, List, [], ◌∷◌, none, some, if◌then◌else◌, get_elem?, ◌==◌,
}
use gps_connector.Promise.{fulfilled}
use gps_connector.Locations.{VehicleLocation}
use gps_connector.Hooks.Requests.{Requests, is_aborted, member}
use gps_connector.MapView.{DayState, current, loading, error, loaded}
use gps_connector.MapView.Days.{
  Asked, Page, World, imei_key, initial, handle_day_change, rerender, located_for, on_located,
  focus_vehicle, clear_vehicle,
}

-- Without a request that has settled.
unfoldable pub remove : ℕ → List ℕ → List ℕ
remove id [] = []
remove id (x ∷ xs) = let rest = remove id xs in if x == id then rest else x ∷ rest

-- The request that an effect has started is in flight.
abbrev pub grown : Requests → Requests → List ℕ → List ℕ
grown before after pending = if after.next == before.next then pending else before.next ∷ pending

-- A day is picked, which is the present one or not; the page is rendered with other vehicles or at another
-- time; a request settles; a vehicle is chosen or given up.
pub data Event (Num : Type 0) : Type 0 where
  picks : ℕ → Bool → Event Num
  renders : Bool → List (VehicleLocation Num) → Event Num
  settles : ℕ → Event Num
  focuses : VehicleLocation Num → Event Num
  unfocuses : Event Num

-- Only a request in flight settles.
abbrev pub Allowed : {Num : Type 0} → Event Num → List ℕ → Type 0
Allowed (settles id) pending = member id pending ≡ true
Allowed _ pending = Unit

module _ {Num : Type 0} where
  -- A request for the selected day, a past one, and for vehicles with the IMEIs that the page has now.
  abbrev pub Fits : Page Num → Asked Num → Type 0
  Fits p a =
      (a.day ≡ p.selected_day)
      × (imei_key a.vehicles ≡ imei_key p.vehicles)
      × (p.is_current_day ≡ false)

  abbrev pub InFlight : Page Num → List ℕ → Type 0
  InFlight p pending =
      (id : ℕ) × (id < p.requests.next)
      × (is_aborted p.requests id ≡ false)
      × (member id pending ≡ true)

module _ {Num : Type 0} (world : World Num) where
  abbrev pub settle : ℕ → Page Num → Page Num
  settle id p = elim (get_elem? p.asked id) [
    | none ↦ p
    | some a ↦ on_located id (located_for world id a) p
  ]

  unfoldable pub handle : Event Num → Page Num → Page Num
  handle (picks day is_today) p = handle_day_change day is_today p
  handle (renders is_today vehicles) p = rerender is_today vehicles p
  handle (settles id) p = settle id p
  handle (focuses v) p = focus_vehicle v p
  handle unfocuses p = clear_vehicle p

  -- The requests in flight after an event, given those before it.
  abbrev pub in_flight : Event Num → Page Num → List ℕ → List ℕ
  in_flight (settles id) p pending = remove id pending
  in_flight e p pending = grown p.requests (handle e p).requests pending

  pub data Reach : Page Num → List ℕ → Type 0 where
    mount : (today : ℕ) → Reach (initial today) []
    step :
        (e : Event Num) (p : Page Num) (pending : List ℕ)
        → Reach p pending
        → Allowed e pending
        → Reach (handle e p) (in_flight e p pending)

  -- Where the state of the day comes from.
  abbrev pub HasSource : Page Num → List ℕ → DayState Num → Type 0
  HasSource p pending current = p.is_current_day ≡ true
  HasSource p pending loading = InFlight p pending
  HasSource p pending error = p.is_current_day ≡ false
  HasSource p pending (loaded located) =
      (id : ℕ) × (a : Asked Num) × (get_elem? p.asked id ≡ some a)
      × Fits p a
      × (located_for world id a ≡ fulfilled located)
