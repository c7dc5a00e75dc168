-- ===== src/Locations/Tests.antt =====
-- The theorems about vehicle-locations.ts at a concrete device and position.
use gps_connector.Prelude.{
  ℕ, codes, Text, Option, ltb, if◌then◌else◌, List, [], ◌∷◌, ◌++◌, map, filter_map, some, none,
}
use mathlib.Core.List.{Perm}
use gps_connector.Promise.{Settled, fulfilled}
use gps_connector.Client.{Device, PositionRow}
use gps_connector.Locations.{VehicleLocation, device_to_vehicle, device_to_pending}
use gps_connector.Locations.Partition.{
  vehicle_imei, pending_imei, device_imei, vehicles_and_pending,
}

abbrev located_device : Device ℕ
located_device = record {
  imei = codes "1";
  device_type = none;
  latitude = some 55;
  longitude = some 12;
  device_timestamp = some 1000;
  ignition = none;
  moving = some 1;
  plate = none;
  vehicle_id = none;
  make = none;
  model = none;
  cost = none;
  associated_location = none;
  fuel_type = none;
  vehicle_type = none;
  fuel_usage = none;
  capacity = none;
  leasing_end_date = none;
}

abbrev two_devices : List (Device ℕ)
two_devices = located_device ∷ record located_device { imei = codes "2"; latitude = none } ∷ []

abbrev no_iso : ℕ → Text
no_iso t = []

vehicles_and_pending_example :
    Perm
      (map vehicle_imei (filter_map (device_to_vehicle no_iso) two_devices)
        ++ map pending_imei (filter_map device_to_pending two_devices))
      (map device_imei two_devices)
vehicles_and_pending_example = vehicles_and_pending no_iso two_devices

abbrev row_at : ℕ → PositionRow ℕ
row_at time = record {
  imei = codes "1";
  device_timestamp = time;
  latitude = 55;
  longitude = 12;
  ignition = none;
  moving = some 0;
  plate = none;
}

abbrev positions : VehicleLocation ℕ → Settled (List (PositionRow ℕ))
positions v = fulfilled (row_at 5 ∷ row_at 9 ∷ [])

abbrev shown : List (VehicleLocation ℕ)
shown = filter_map (device_to_vehicle no_iso) two_devices

-- Only times before 10 are in range.
abbrev some_iso : ℕ → Option Text
some_iso t = if ltb t 10 then some [] else none
