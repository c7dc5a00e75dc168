-- ===== src/Panel.antt =====
-- The panel beside the map: frontend/components/map-panel.tsx, with frontend/lib/vehicle-status.ts and
-- reverse-geocode.ts. `lower` is `toLowerCase`, and `locale_le a b` says that `a.localeCompare(b)`
-- is not positive.
mod Tests
pub mod Order
pub mod Address
pub mod Details
pub mod Trips
pub mod View
pub mod Selection
pub mod Addresses
use gps_connector.Prelude.{
  starts_with, ℕ, ◌/◌, Text, String, codes, Bool, true, false, ◌&&◌, ◌||◌, not, List, [], ◌∷◌, ◌++◌,
  map, Option, none, some, if◌then◌else◌, filter, find, ltb, ◌==◌, trim, truthy, text_eq, decimal,
  is_some, length,
}
use gps_connector.Locations.{Status, driving, stationary, VehicleLocation, PendingDevice}

pub data StatusFilter : Type 0 where
  all : StatusFilter
  only : Status → StatusFilter

-- `Searchable`
pub record Searchable : Type 0 where
  pub plate : Text
  pub make : Text
  pub model : Text
  pub fleet_id : Text
  pub imei : Text

-- `text.includes(part)`
unfoldable pub includes : Text → Text → Bool
includes [] part = starts_with part []
includes (c ∷ text) part = starts_with part (c ∷ text) || includes text part

unfoldable pub matches_query : (Text → Text) → Searchable → Text → Bool
matches_query lower item query =
    includes (lower item.plate) query
    || includes (lower item.make) query
    || includes (lower item.model) query
    || includes (lower item.fleet_id) query
    || includes item.imei query

-- `a || b` on texts
abbrev or_text : Text → Text → Text
or_text [] b = b
or_text (c ∷ s) b = c ∷ s

abbrev pub is_driving : Status → Bool
is_driving driving = true
is_driving stationary = false

module _ {Num : Type 0} where
  abbrev pub search_vehicle : VehicleLocation Num → Searchable
  search_vehicle v = record {
    plate = v.plate;
    make = v.make;
    model = v.model;
    fleet_id = v.fleet_id;
    imei = v.imei;
  }

  by_status :
      (Text → Text → Bool) → VehicleLocation Num → VehicleLocation Num → Status → Status → Bool
  by_status locale_le a b driving driving =
      locale_le (or_text a.plate a.imei) (or_text b.plate b.imei)
  by_status locale_le a b stationary stationary =
      locale_le (or_text a.plate a.imei) (or_text b.plate b.imei)
  by_status locale_le a b driving stationary = true
  by_status locale_le a b stationary driving = false

  -- That `compareVehicles(a, b)` is not positive.
  unfoldable pub compare_vehicles :
      (Text → Text → Bool) → VehicleLocation Num → VehicleLocation Num → Bool
  unfolding by_status
  compare_vehicles locale_le a b = by_status locale_le a b a.status b.status

  -- `sort(compareVehicles)`, which keeps the order of vehicles that compare as equal.
  unfoldable pub insert_vehicle :
      (Text → Text → Bool)
      → VehicleLocation Num
      → List (VehicleLocation Num)
      → List (VehicleLocation Num)
  insert_vehicle locale_le v [] = v ∷ []
  insert_vehicle locale_le v (w ∷ ws) =
      let rest = insert_vehicle locale_le v ws in
      if compare_vehicles locale_le v w then v ∷ w ∷ ws else w ∷ rest

  unfoldable pub sort_vehicles :
      (Text → Text → Bool) → List (VehicleLocation Num) → List (VehicleLocation Num)
  sort_vehicles locale_le [] = []
  sort_vehicles locale_le (v ∷ vs) = insert_vehicle locale_le v (sort_vehicles locale_le vs)

abbrev pub search_pending : PendingDevice → Searchable
search_pending d = record {
  plate = d.plate;
  make = d.make;
  model = d.model;
  fleet_id = d.fleet_id;
  imei = d.imei;
}

abbrev pub trimmed_query : (Text → Text) → Text → Text
trimmed_query lower query = lower (trim query)

-- Whether a vehicle or a device is found, where an empty query finds all.
abbrev pub is_matched : (Text → Text) → Text → Searchable → Bool
is_matched lower query item =
    let q = trimmed_query lower query in if truthy q then matches_query lower item q else true

abbrev pub passes : StatusFilter → Status → Bool
passes all status = true
passes (only driving) status = is_driving status
passes (only stationary) status = not (is_driving status)

abbrev pub found_in : {Num : Type 0} → (Text → Text) → Text → VehicleLocation Num → Bool
found_in lower query v = is_matched lower query (search_vehicle v)

module _ {Num : Type 0} (lower : Text → Text) (locale_le : Text → Text → Bool) where
  unfoldable pub matched_vehicles : Text → List (VehicleLocation Num) → List (VehicleLocation Num)
  matched_vehicles query vehicles = sort_vehicles locale_le (filter (found_in lower query) vehicles)

  unfoldable pub visible_vehicles :
      StatusFilter → Text → List (VehicleLocation Num) → List (VehicleLocation Num)
  visible_vehicles status_filter query vehicles =
      filter (λ v. passes status_filter v.status) (matched_vehicles query vehicles)

-- `visiblePending`
unfoldable pub visible_pending :
    (Text → Text) → StatusFilter → Text → List PendingDevice → List PendingDevice
visible_pending lower all query devices =
    filter (λ d. is_matched lower query (search_pending d)) devices
visible_pending lower (only _) query devices = []

none_reported : Bool → Text
none_reported true = codes "No devices reporting yet."
none_reported false = codes "No vehicles reported on this day."

without_query : StatusFilter → Bool → Bool → Text
unfolding none_reported
without_query (only driving) true is_current_day = codes "No driving vehicles"
without_query (only stationary) true is_current_day = codes "No stationary vehicles"
without_query _ _ is_current_day = none_reported is_current_day

unfoldable pub list_empty_message : Bool → StatusFilter → Bool → Bool → Text
unfolding without_query
list_empty_message has_query status_filter has_vehicles is_current_day =
    if has_query
    then codes "No vehicles found"
    else without_query status_filter has_vehicles is_current_day

-- `shortRelativeTime`, given the seconds that have passed.
unfoldable pub short_relative_time : ℕ → Text
short_relative_time seconds =
    if ltb seconds 60
    then decimal seconds ++ codes "s ago"
    else if ltb seconds 3600
    then decimal (seconds / 60) ++ codes "m ago"
    else if ltb seconds 86400
    then decimal (seconds / 3600) ++ codes "h ago"
    else decimal (seconds / 86400) ++ codes "d ago"

-- `statusColor`
unfoldable pub status_color : Status → Text
status_color driving = codes "#3b82f6"
status_color stationary = codes "#6b7280"
