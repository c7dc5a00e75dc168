-- ===== src/Panel/Trips.antt =====
-- The route in the panel: `RouteSection` and what stands around it in frontend/components/map-panel.tsx.
use gps_connector.Prelude.{
  ℕ, zero, suc, ◌+◌, ◌≡◌, refl, ap, ◌∙◌, Text, codes, Bool, true, false, List, [], ◌∷◌, ◌++◌,
  Option, none, some, ltb, if◌then◌else◌, text_eq, decimal, number_of, number_of-decimal, length,
  get_elem?, ◌<◌, text_eq_sound, arith, Bool-cases, inl, inr,
}
use gps_connector.Geo.{Floats}
use gps_connector.Routes.Fetch.{RouteTrip, VehicleRoute}
use gps_connector.MapView.{RouteStatus, idle, loading, empty, error, loaded}
use gps_connector.Panel.Details.{Formats, format_distance}

-- An item of the list of trips: its value and what it says.
pub record Item : Type 0 where
  pub value : Text
  pub label : Text

-- `selectedTrip === null ? "all" : String(selectedTrip)`
unfoldable pub select_value : Option ℕ → Text
select_value none = codes "all"
select_value (some index) = decimal index

-- A choice: all trips, the trip with a number, or `NaN`.
pub data Choice : Type 0 where
  every_trip : Choice
  trip : ℕ → Choice
  not_a_number : Choice

abbrev choice_of : Option ℕ → Choice
choice_of none = not_a_number
choice_of (some index) = trip index

-- `value === "all" ? null : Number(value)`
unfoldable pub chosen : Text → Choice
chosen value = if text_eq value (codes "all") then every_trip else choice_of (number_of value)

abbrev pub trip_item : ℕ → Item
trip_item index = record { value = decimal index; label = codes "Trip " ++ decimal (index + 1) }

items_from : ℕ → ℕ → List Item
items_from zero index = []
items_from (suc count) index = trip_item index ∷ items_from count (index + 1)

-- The items for so many trips.
unfoldable pub trip_items : ℕ → List Item
unfolding items_from
trip_items count =
    record { value = codes "all"; label = codes "All trips (" ++ decimal count ++ codes ")" }
    ∷ items_from count 0

module _ (fl : Floats) (fm : Formats fl.Num) where
  pub record Section : Type 0 where
    pub items : List Item
    pub value : Text
    pub distance : Text
    pub active : Text

  abbrev active_text : Text → Text → Text
  active_text first last = fm.clock first ++ codes " to " ++ fm.clock last

  -- `route.trips[selectedTrip] ?? null`, where a trip is selected
  abbrev trip_at : Option ℕ → List (RouteTrip fl) → Option (RouteTrip fl)
  trip_at none trips = none
  trip_at (some index) trips = get_elem? trips index

  abbrev section_items : ℕ → List Item
  section_items count = if ltb 1 count then trip_items count else []

  section_of : VehicleRoute fl → Option ℕ → Option (RouteTrip fl) → Section
  section_of route selected none = record {
    items = section_items (length route.trips);
    value = select_value selected;
    distance = format_distance fm route.summary.distance_meters;
    active = active_text route.summary.first_movement route.summary.last_movement;
  }
  section_of route selected (some t) = record {
    items = section_items (length route.trips);
    value = select_value selected;
    distance = format_distance fm t.distance_meters;
    active = active_text t.first_movement t.last_movement;
  }

  -- `RouteSection`
  unfoldable pub route_section : VehicleRoute fl → Option ℕ → Section
  unfolding section_of
  route_section route selected = section_of route selected (trip_at selected route.trips)

  pub data RouteView : Type 0 where
    nothing spinner : RouteView
    notice : Text → RouteView
    section : Section → RouteView

  -- What stands below "Route", and whether there is a button that fits the map to the route.
  unfoldable pub route_view : Bool → RouteStatus fl → Option ℕ → RouteView × Bool
  route_view is_current_day idle selected = (nothing, false)
  route_view is_current_day loading selected = (spinner, false)
  route_view true empty selected = (notice (codes "No trips recorded today."), false)
  route_view false empty selected = (notice (codes "No trips recorded on this day."), false)
  route_view is_current_day error selected = (notice (codes "Could not load route history."), false)
  route_view is_current_day (loaded route) selected = (section (route_section route selected), true)

abbrev pub choice_for : Option ℕ → Choice
choice_for none = every_trip
choice_for (some index) = trip index

-- Where the item for a trip stands, and whether there is one.
abbrev pub place_of : Option ℕ → ℕ
place_of none = 0
place_of (some index) = suc index

abbrev pub IsOffered : Option ℕ → ℕ → Type 0
IsOffered none count = Unit
IsOffered (some index) count = index < count

items_from_at :
    (count base index : ℕ)
    → index < count
    → get_elem? (items_from count base) index ≡ some (trip_item (base + index))
unfolding items_from
items_from_at zero base index h = absurd (omega arith)
items_from_at (suc count) base zero h = ap (λ n. some (trip_item n)) (omega arith)
items_from_at (suc count) base (suc index) h =
    items_from_at count (base + 1) index (omega arith) ∙ ap (λ n. some (trip_item n)) (omega arith)

decimal-ne-all : (n : ℕ) → text_eq (decimal n) (codes "all") ≡ false
unfolding number_of
decimal-ne-all n = elim (Bool-cases (text_eq (decimal n) (codes "all"))) [
  | inl e ↦
      let same = ap number_of (text_eq_sound (decimal n) (codes "all") e) in
      let read = number_of-decimal n in cc
  | inr e ↦ e
]

-- For every number of trips and every selection among them, the value that the list of trips has then is
-- that of one of its items, which stands at the trip's place, and choosing that item gives the
-- selection back: all trips, or the trip of that number.
pub trip_items-chosen :
    (count : ℕ) (selected : Option ℕ)
    → IsOffered selected count
    → (item : Item) × (get_elem? (trip_items count) (place_of selected) ≡ some item)
      × (item.value ≡ select_value selected)
      × (chosen item.value ≡ choice_for selected)
unfolding trip_items select_value chosen text_eq
trip_items-chosen count none h = (
  record { value = codes "all"; label = codes "All trips (" ++ decimal count ++ codes ")" },
  refl,
  refl,
  refl,
)
trip_items-chosen count (some index) h = (
  trip_item index,
  items_from_at count 0 index h ∙ ap (λ n. some (trip_item n)) (omega arith),
  refl,
  rw (decimal-ne-all index, number_of-decimal index) refl,
)
