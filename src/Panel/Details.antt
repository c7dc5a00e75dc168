-- ===== src/Panel/Details.antt =====
-- What the panel says of one vehicle: `buildExtraRows`, `formatDistance`, `VehicleDetails`, `RouteSection`,
-- `lastUpdateText` and the rows of the list in frontend/components/map-panel.tsx. Numbers and dates are
-- written by functions that the definitions take.
use gps_connector.Prelude.{
  ℕ, Text, codes, Bool, true, false, ◌||◌, List, [], ◌∷◌, ◌++◌, Option, none, some, if◌then◌else◌,
  take, trim, truthy, text_eq, or_else,
}
use gps_connector.Locations.{
  Status, driving, stationary, VehicleLocation, PendingDevice, map_option,
}
use gps_connector.Panel.{or_text}
use gps_connector.Panel.Address.{address_lines}

-- `toFixed(digits)`, `String`, `Math.round` in decimal, a division and `<`; `format(parseISO(text), "PP")`,
-- `format(new Date(text), "HH:mm")`, and the time since a date as `shortRelativeTime` writes it.
pub record Formats (Num : Type 0) : Type 0 where
  pub to_fixed : ℕ → Num → Text
  pub text_of : Num → Text
  pub rounded : Num → Text
  pub thousandth : Num → Num
  pub is_below : Num → ℕ → Bool
  pub day_text : Text → Text
  pub clock : Text → Text
  pub since : Text → Text

pub record DetailRow : Type 0 where
  pub label : Text
  pub value : Text
  pub mono : Bool

abbrev pub plain_row : Text → Text → DetailRow
plain_row label value = record { label = label; value = value; mono = false }

abbrev pub mono_row : Text → Text → DetailRow
mono_row label value = record { label = label; value = value; mono = true }

abbrev on_off : Bool → Text
on_off true = codes "On"
on_off false = codes "Off"

-- `text ? { label, value: text } : null`
abbrev text_row : Text → Option Text → Option DetailRow
text_row label none = none
text_row label (some []) = none
text_row label (some (c ∷ s)) = some (plain_row label (c ∷ s))

abbrev mono_text_row : Text → Text → Option DetailRow
mono_text_row label [] = none
mono_text_row label (c ∷ s) = some (mono_row label (c ∷ s))

-- `rows.filter((row) => row !== null)`
unfoldable pub present_rows : List (Option DetailRow) → List DetailRow
present_rows [] = []
present_rows (none ∷ rows) = present_rows rows
present_rows (some row ∷ rows) = row ∷ present_rows rows

-- The name of a vehicle or a device in a row: the plate, or else the IMEI.
abbrev pub row_name : Text → Text → Text
row_name plate imei = or_text plate imei

-- The make and the model in a row, if either is there.
unfoldable pub row_model : Text → Text → Option Text
row_model make model =
    if truthy make || truthy model then some (make ++ codes " " ++ model) else none

-- A row of the list.
pub record Row : Type 0 where
  pub id : Text
  pub is_active : Bool
  pub status : Status
  pub name : Text
  pub model : Option Text
  pub updated : Option Text

unfoldable pub pending_row : PendingDevice → Text × Option Text
pending_row d = (row_name d.plate d.imei, row_model d.make d.model)

-- `text && f(text)`
abbrev with_text : (Text → Text) → Option Text → Option Text
with_text f none = none
with_text f (some []) = none
with_text f (some (c ∷ s)) = some (f (c ∷ s))

abbrev is_id : Option Text → Text → Bool
is_id none id = false
is_id (some active) id = text_eq id active

-- The details of a vehicle above the route.
pub record Details : Type 0 where
  pub plate : Text
  pub vehicle : Option Text
  pub status : Text
  pub address : Text × Option Text
  pub last_update : Text
  pub extra : List DetailRow

abbrev status_text : Status → Text
status_text driving = codes "Driving"
status_text stationary = codes "Stationary"

-- `address ? addressLines(address) : coordsText`
abbrev pub address_value : Text → Option Text → Text × Option Text
address_value coords none = (coords, none)
address_value coords (some []) = (coords, none)
address_value coords (some (c ∷ s)) = address_lines (c ∷ s)

module _ {Num : Type 0} (fm : Formats Num) where
  unfoldable pub coords_text : Num × Num → Text
  coords_text (longitude, latitude) =
      fm.to_fixed 4 latitude ++ codes ", " ++ fm.to_fixed 4 longitude

  leasing_row : Option Text → Option DetailRow
  leasing_row none = none
  leasing_row (some []) = none
  leasing_row (some (c ∷ s)) =
      some (plain_row (codes "Leasing ends") (fm.day_text (take 10 (c ∷ s))))

  unfoldable pub build_extra_rows : VehicleLocation Num → List DetailRow
  unfolding leasing_row
  build_extra_rows v = present_rows (
      some (mono_row (codes "Coordinates") (coords_text v.coordinates))
      ∷ map_option (λ on. plain_row (codes "Ignition") (on_off on)) v.ignition
      ∷ text_row (codes "Type") v.vehicle_type
      ∷ text_row (codes "Location") v.associated_location
      ∷ text_row (codes "Fleet ID") (some v.fleet_id)
      ∷ mono_text_row (codes "IMEI") v.imei
      ∷ text_row (codes "Fuel") v.fuel_type
      ∷ map_option (λ n. plain_row (codes "Capacity") (fm.text_of n)) v.capacity
      ∷ leasing_row v.leasing_end_date
      ∷ [])

  unfoldable pub format_distance : Num → Text
  format_distance meters =
      if fm.is_below meters 1000
      then fm.rounded meters ++ codes " m"
      else fm.to_fixed 1 (fm.thousandth meters) ++ codes " km"

  unfoldable pub last_update_text : Text → Bool → Text
  last_update_text iso true = fm.since iso
  last_update_text iso false = fm.clock iso

  -- `VehicleRow`
  unfoldable pub vehicle_row : Option Text → Bool → VehicleLocation Num → Row
  vehicle_row active is_current_day v = record {
    id = v.id;
    is_active = is_id active v.id;
    status = v.status;
    name = row_name v.plate v.imei;
    model = row_model v.make v.model;
    updated = with_text (λ iso. last_update_text iso is_current_day) v.last_update;
  }

  -- `VehicleDetails`, given its state: whether it is expanded, and the address.
  unfoldable pub vehicle_details : Bool → Bool → Option Text → VehicleLocation Num → Details
  vehicle_details is_current_day expanded address v = record {
    plate = or_text v.plate v.imei;
    vehicle = with_text (λ s. s) (some (trim (v.make ++ codes " " ++ v.model)));
    status = status_text v.status;
    address = address_value (coords_text v.coordinates) address;
    last_update =
        or_else (with_text (λ iso. last_update_text iso is_current_day) v.last_update)
          (codes "Unknown");
    extra = if expanded then build_extra_rows v else [];
  }
