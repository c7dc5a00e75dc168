-- ===== src/Hooks/Tests.antt =====
-- The theorems about the hooks at concrete events.
use gps_connector.Prelude.{
  ℤ, ◌+◌, ◌-◌, Option, ap, none, some, ℕ, ◌≡◌, refl, codes, Text, List, [], ◌∷◌, true, false, arith,
}
use gps_connector.Client.{Device}
use gps_connector.Hooks.Requests.{is_current, start, abort_current, is_aborted, abort, member}
use gps_connector.Hooks.Devices
use gps_connector.Hooks.Devices.Latest.{Reach-latest}
use gps_connector.Hooks.Overview.Refinement.{AreSent, run, specified_run, first_view, run-specified}
use gps_connector.Hooks.Overview
use gps_connector.Hooks.Overview.RoundTrip.{Reads, filled, device_to_record-vehicle_to_metadata}
use gps_connector.Vehicle.{Vehicle, vehicle_to_metadata}

abbrev no_iso : ℕ → Text
no_iso t = []

abbrev polled : Devices.Machine ℕ
polled = Devices.handle no_iso (Devices.tick false) (Devices.mounted no_iso)

polled-Reach : Devices.Reach no_iso polled
polled-Reach = Devices.step (Devices.mounted no_iso) (Devices.tick false) Devices.mount tt

Reach-latest_example :
    ((devices : List (Device ℕ))
      → Devices.Allowed no_iso polled (Devices.succeeded 0 devices)
      → (is_current polled.requests 0 ≡ true) × (polled.stopped ≡ false))
    × (Devices.Allowed no_iso polled (Devices.failed 0)
        → is_current polled.requests 0 ≡ false
        → Devices.handle no_iso (Devices.failed 0) polled ≡ polled)
Reach-latest_example = Reach-latest no_iso polled polled-Reach 0

abbrev refreshed : Overview.Machine
refreshed = Overview.handle Overview.loads Overview.mounted

abbrev no_date : Text → Option ℤ
no_date s = none

abbrev show_digit : ℕ → Text
show_digit n = (b'0' + n) ∷ []

abbrev read_digit : Text → Option ℕ
read_digit [] = none
read_digit (c ∷ s) = some (c - b'0')

reads_digits : Reads show_digit no_iso read_digit no_date
reads_digits x = (ap some (omega arith), refl)

abbrev van : Device ℕ
van = record {
  imei = codes "1";
  device_type = none;
  latitude = none;
  longitude = none;
  device_timestamp = none;
  ignition = none;
  moving = none;
  plate = some (codes "AB12345");
  vehicle_id = none;
  make = none;
  model = none;
  cost = none;
  associated_location = none;
  fuel_type = none;
  vehicle_type = none;
  fuel_usage = some 7;
  capacity = none;
  leasing_end_date = none;
}

van_has_data : Overview.device_has_vehicle_data van ≡ true
unfolding Overview.device_has_vehicle_data
van_has_data = refl

device_to_record-vehicle_to_metadata_example :
    (v : Vehicle) × ((Overview.device_to_record show_digit no_iso van).vehicle ≡ some v)
    × (let m = vehicle_to_metadata read_digit no_date v in
        (m.plate ≡ filled van.plate)
        × (m.vehicle_id ≡ filled van.vehicle_id)
        × (m.make ≡ filled van.make)
        × (m.model ≡ filled van.model)
        × (m.vehicle_type ≡ filled van.vehicle_type)
        × (m.fuel_type ≡ filled van.fuel_type)
        × (m.associated_location ≡ filled van.associated_location)
        × (m.fuel_usage ≡ van.fuel_usage)
        × (m.capacity ≡ van.capacity)
        × (m.cost ≡ van.cost))
device_to_record-vehicle_to_metadata_example =
    device_to_record-vehicle_to_metadata show_digit no_iso read_digit no_date reads_digits van
      van_has_data

-- A second load starts, the first one is answered, a device is taken out of the list, and the second load fails.
abbrev course : List Overview.Event
course =
    Overview.loads ∷ Overview.succeeded 0 [] ∷ Overview.removes (codes "1") ∷ Overview.failed 1 ∷ []

course-AreSent : AreSent course Overview.mounted
unfolding Overview.handle Overview.mounted Overview.load Overview.on_devices start abort_current
    is_aborted abort member
course-AreSent = (tt, (omega arith, (tt, (omega arith, tt))))

run-specified_example :
    (run course Overview.mounted).state ≡ (specified_run course first_view).state
run-specified_example = run-specified course course-AreSent
