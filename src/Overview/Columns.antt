-- ===== src/Overview/Columns.antt =====
-- The cells of the tables of devices: frontend/app/overview/columns.tsx, frontend/components/vehicle-cell.tsx
-- and data-table.tsx, and frontend/app/register/generated-section.tsx. What the table library does with
-- them is not modelled.
use gps_connector.Prelude.{
  ℕ, ◌+◌, Text, codes, Bool, List, [], ◌∷◌, ◌++◌, map, Option, none, some, if◌then◌else◌, ◌==◌,
  trim, or_else, decimal, length,
}
use gps_connector.Vehicle.{Vehicle}
use gps_connector.Register.{DeviceRecord}

-- `a || "-"`, `a ?? "-"`
abbrev or_dash : Text → Text
or_dash [] = codes "-"
or_dash (c ∷ s) = c ∷ s

abbrev of_vehicle : (Vehicle → Text) → Option Vehicle → Text
of_vehicle f none = []
of_vehicle f (some v) = f v

unfoldable pub device_cell : DeviceRecord → Text
device_cell r = or_else r.gps_device (codes "-")

-- The values that the table searches in, and the cells.
unfoldable pub plate_value : DeviceRecord → Text
plate_value r = of_vehicle (λ v. v.plate) r.vehicle

unfoldable pub plate_cell : DeviceRecord → Text
plate_cell r = or_dash (plate_value r)

unfoldable pub vehicle_value : DeviceRecord → Text
vehicle_value r =
    trim (of_vehicle (λ v. v.make) r.vehicle ++ codes " " ++ of_vehicle (λ v. v.model) r.vehicle)

unfoldable pub location_value : DeviceRecord → Text
location_value r = of_vehicle (λ v. v.location) r.vehicle

unfoldable pub location_cell : DeviceRecord → Text
location_cell r = or_dash (location_value r)

-- A button that attaches a vehicle, or a text.
pub data VehicleCell : Type 0 where
  attach : VehicleCell
  shows : Text → VehicleCell

unfoldable pub vehicle_cell : Option Vehicle → VehicleCell
vehicle_cell none = attach
vehicle_cell (some v) = shows (or_dash (trim (v.make ++ codes " " ++ v.model)))

-- The vehicle that the dialog opens with after the cell's button or the item "Edit vehicle" was pressed, where
-- `target` is what the page finds for the IMEI.
pub record Actions : Type 0 where
  pub edit : Text
  pub remove : Text

unfoldable pub row_actions : DeviceRecord → Actions
row_actions r = record { edit = r.imei; remove = r.imei }

abbrev plural : ℕ → Text
plural n = if n == 1 then [] else codes "s"

-- The registered devices of the form: how many there are, and a row for each.
pub data Generated : Type 0 where
  nothing : Generated
  generated : (count : Text) (items : List (Text × Text)) → Generated

unfoldable pub generated_section : List DeviceRecord → Generated
generated_section [] = nothing
generated_section (r ∷ rs) =
    let n = length (r ∷ rs) in
    generated (decimal n ++ codes " device" ++ plural n)
      (map (λ (d : DeviceRecord). (d.imei, or_else d.gps_device (codes "Unknown device"))) (r ∷ rs))

-- The texts below a table, and the pages that its buttons lead to.
unfoldable pub rows_text : ℕ → Text
rows_text n = decimal n ++ codes " row" ++ plural n ++ codes " total."

unfoldable pub page_text : (page_index page_count : ℕ) → Text
page_text page_index page_count =
    codes "Page "
    ++ decimal (if page_count == 0 then 0 else page_index + 1)
    ++ codes " of "
    ++ decimal page_count

abbrev pub page_size_options : List ℕ
page_size_options = 10 ∷ 20 ∷ 30 ∷ 40 ∷ 50 ∷ []

-- How a column is sorted, if it is.
pub data Sorted : Type 0 where
  ascending descending unsorted : Sorted

unfoldable pub aria_sort : Sorted → Bool → Option Text
aria_sort ascending can_sort = some (codes "ascending")
aria_sort descending can_sort = some (codes "descending")
aria_sort unsorted can_sort = if can_sort then some (codes "none") else none
