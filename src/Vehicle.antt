-- ===== src/Vehicle.antt =====
-- The vehicle of a device: frontend/lib/vehicle.ts. `number` is `Number` where the result is finite,
-- and `date` is `Date.parse` in milliseconds where the text is a date.
use gps_connector.Prelude.{ℕ, ℤ, floor_div, Text, Option, none, some, [], ◌∷◌, take}
use gps_connector.Client.{DeviceMetadata}

pub record Vehicle : Type 0 where
  pub plate : Text
  pub id : Text
  pub make : Text
  pub model : Text
  pub vehicle_type : Text
  pub fuel_type : Text
  pub fuel_usage : Text
  pub capacity : Text
  pub cost : Text
  pub leasing_end : Text
  pub location : Text

-- `text || undefined`
abbrev pub text_or_none : Text → Option Text
text_or_none [] = none
text_or_none (c ∷ s) = some (c ∷ s)

-- The seconds of a date in milliseconds.
abbrev pub seconds_of : Option ℤ → Option ℤ
seconds_of none = none
seconds_of (some ms) = some (floor_div ms 1000)

abbrev pub to_number {ℓ} : {Num : Type ℓ} → (Text → Option Num) → Text → Option Num
to_number number [] = none
to_number number (c ∷ s) = number (c ∷ s)

abbrev pub leasing_end_to_unix : (Text → Option ℤ) → Text → Option ℤ
leasing_end_to_unix date [] = none
leasing_end_to_unix date (c ∷ s) = seconds_of (date (c ∷ s))

-- `iso` is `toISOString` of a time in seconds.
abbrev pub unix_to_date_input : (ℕ → Text) → ℕ → Text
unix_to_date_input iso seconds = take 10 (iso seconds)

unfoldable pub vehicle_to_metadata :
    {Num : Type 0} → (Text → Option Num) → (Text → Option ℤ) → Vehicle → DeviceMetadata Num ℤ
vehicle_to_metadata number date v = record {
  plate = text_or_none v.plate;
  vehicle_id = text_or_none v.id;
  make = text_or_none v.make;
  model = text_or_none v.model;
  vehicle_type = text_or_none v.vehicle_type;
  fuel_type = text_or_none v.fuel_type;
  fuel_usage = to_number number v.fuel_usage;
  capacity = to_number number v.capacity;
  cost = to_number number v.cost;
  leasing_end_date = leasing_end_to_unix date v.leasing_end;
  associated_location = text_or_none v.location;
}
