-- ===== src/Hooks/Overview/RoundTrip.antt =====
-- The vehicle data of a device in the form and back: deviceToRecord of
-- frontend/hooks/use-overview-devices.ts and vehicleToMetadata of frontend/lib/vehicle.ts.
use gps_connector.Prelude.{
  ℕ, ℤ, ◌≡◌, refl, ◌∙◌, Text, true, [], ◌∷◌, Option, none, some, or_else, truthy,
}
use gps_connector.Client.{Device}
use gps_connector.Vehicle.{Vehicle, text_or_none, to_number, vehicle_to_metadata}
use gps_connector.Hooks.Overview.{device_has_vehicle_data, device_to_record, vehicle_of, shown}

-- A text that is not empty, if there is one.
abbrev pub filled : Option Text → Option Text
filled none = none
filled (some []) = none
filled (some (c ∷ s)) = some (c ∷ s)

filled-text : (t : Option Text) → text_or_none (or_else t []) ≡ filled t
filled-text none = refl
filled-text (some []) = refl
filled-text (some (c ∷ s)) = refl

module _ {Num : Type 0} (show : Num → Text) (iso : ℕ → Text) (number : Text → Option Num)
    (date : Text → Option ℤ) where
  -- `Number` reads what `toString` has written, which is never empty.
  abbrev pub Reads : Type 0
  Reads = (x : Num) → (number (show x) ≡ some x) × (truthy (show x) ≡ true)

  filled-number : Reads → (x : Option Num) → to_number number (shown show iso x) ≡ x
  filled-number r none = refl
  filled-number r (some x) = by (show x) (r x).1 ∙ (r x).0
    where
      by : (t : Text) → truthy t ≡ true → to_number number t ≡ number t
      by [] h = cc
      by (c ∷ s) h = refl

  -- The record of a device with vehicle data has a vehicle, whose metadata has the texts, where they are not
  -- empty, and the numbers of the device, provided that `Number` reads back what `toString` writes, which
  -- is not empty.
  pub device_to_record-vehicle_to_metadata :
      Reads
      → (device : Device Num) → device_has_vehicle_data device ≡ true
      → (v : Vehicle) × ((device_to_record show iso device).vehicle ≡ some v)
        × (let m = vehicle_to_metadata number date v in
            (m.plate ≡ filled device.plate)
            × (m.vehicle_id ≡ filled device.vehicle_id)
            × (m.make ≡ filled device.make)
            × (m.model ≡ filled device.model)
            × (m.vehicle_type ≡ filled device.vehicle_type)
            × (m.fuel_type ≡ filled device.fuel_type)
            × (m.associated_location ≡ filled device.associated_location)
            × (m.fuel_usage ≡ device.fuel_usage)
            × (m.capacity ≡ device.capacity)
            × (m.cost ≡ device.cost))
  unfolding device_to_record vehicle_to_metadata vehicle_of
  device_to_record-vehicle_to_metadata r d h = (
    vehicle_of show iso d,
    rw h refl,
    (
      filled-text d.plate,
      filled-text d.vehicle_id,
      filled-text d.make,
      filled-text d.model,
      filled-text d.vehicle_type,
      filled-text d.fuel_type,
      filled-text d.associated_location,
      filled-number r d.fuel_usage,
      filled-number r d.capacity,
      filled-number r d.cost,
    ),
  )
