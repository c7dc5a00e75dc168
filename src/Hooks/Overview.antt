-- ===== src/Hooks/Overview.antt =====
-- The devices of the overview page: frontend/hooks/use-overview-devices.ts. `show` is `toString` of a
-- number, `iso` is `toISOString` of a time in seconds.
pub mod Latest
pub mod RoundTrip
pub mod Refinement
use gps_connector.Prelude.{
  ℕ, Text, codes, Bool, true, false, ◌||◌, not, List, [], ◌∷◌, map, Option, none, some, ◌==◌,
  if◌then◌else◌, filter, truthy, or_else, is_some, text_eq,
}
use gps_connector.Client.{Device}
use gps_connector.Register.{DeviceRecord}
use gps_connector.Vehicle.{Vehicle, unix_to_date_input}
use gps_connector.Hooks.Requests.{Requests, no_requests, is_aborted, abort_current, start}

abbrev is_filled : Option Text → Bool
is_filled text = truthy (or_else text [])

module _ {Num : Type 0} where
  unfoldable pub device_has_vehicle_data : Device Num → Bool
  device_has_vehicle_data device =
      (is_filled device.plate
        || is_filled device.vehicle_id
        || is_filled device.make
        || is_filled device.model
        || is_filled device.vehicle_type
        || is_filled device.fuel_type
        || is_filled device.associated_location)
      || is_some device.fuel_usage
      || is_some device.capacity
      || is_some device.cost
      || is_some device.leasing_end_date

  module _ (show : Num → Text) (iso : ℕ → Text) where
    abbrev shown : Option Num → Text
    shown none = []
    shown (some x) = show x

    -- `time ? unixToDateInput(time) : ""`
    abbrev date_input : Option ℕ → Text
    date_input none = []
    date_input (some t) = if t == 0 then [] else unix_to_date_input iso t

    vehicle_of : Device Num → Vehicle
    vehicle_of device = record {
      plate = or_else device.plate [];
      id = or_else device.vehicle_id [];
      make = or_else device.make [];
      model = or_else device.model [];
      vehicle_type = or_else device.vehicle_type [];
      fuel_type = or_else device.fuel_type [];
      fuel_usage = shown device.fuel_usage;
      capacity = shown device.capacity;
      cost = shown device.cost;
      leasing_end = date_input device.leasing_end_date;
      location = or_else device.associated_location [];
    }

    unfoldable pub device_to_record : Device Num → DeviceRecord
    unfolding vehicle_of
    device_to_record device = record {
      imei = device.imei;
      gps_device = device.device_type;
      vehicle = if device_has_vehicle_data device then some (vehicle_of device) else none;
    }

pub record State : Type 0 where
  pub records : List DeviceRecord
  pub loading : Bool
  pub error : Option Text

-- The state with the variable `abortRef`.
pub record Machine : Type 0 where
  pub state : State
  pub requests : Requests

abbrev pub initial : State
initial = record { records = []; loading = true; error = none }

abbrev set_loading : State → State
set_loading s = record s { loading = true }

-- `load` up to the call of `getDevices`.
unfoldable pub load : Machine → Machine
load m = record { requests = start m.requests; state = set_loading m.state }

-- The callback of `then`, given the records of the devices.
unfoldable pub on_devices : ℕ → List DeviceRecord → Machine → Machine
on_devices id records m =
    if is_aborted m.requests id
    then m
    else record m { state = record { records = records; loading = false; error = none } }

abbrev failed_state : State → State
failed_state s = record s { loading = false; error = some (codes "Could not load devices") }

-- The callback of `catch`.
unfoldable pub on_failure : ℕ → Machine → Machine
on_failure id m = if is_aborted m.requests id then m else record m { state = failed_state m.state }

abbrev updated_at : Text → (DeviceRecord → DeviceRecord) → DeviceRecord → DeviceRecord
updated_at imei updater r = if text_eq r.imei imei then updater r else r

abbrev with_records : List DeviceRecord → State → State
with_records records s = record s { records = records }

unfoldable pub update_record : Text → (DeviceRecord → DeviceRecord) → State → State
update_record imei updater s = with_records (map (updated_at imei updater) s.records) s

unfoldable pub remove_record : Text → State → State
remove_record imei s = with_records (filter (λ r. not (text_eq r.imei imei)) s.records) s

-- What happens to the hook: a load, the settling of a request, the two changes that the page makes, and
-- the end of the component.
pub data Event : Type 0 where
  loads : Event
  succeeded : ℕ → List DeviceRecord → Event
  failed : ℕ → Event
  updates : Text → (DeviceRecord → DeviceRecord) → Event
  removes : Text → Event
  unmounted : Event

unfoldable pub handle : Event → Machine → Machine
handle loads m = load m
handle (succeeded id records) m = on_devices id records m
handle (failed id) m = on_failure id m
handle (updates imei updater) m = record m { state = update_record imei updater m.state }
handle (removes imei) m = record m { state = remove_record imei m.state }
handle unmounted m = record m { requests = abort_current m.requests }

-- The hook once its first load is under way.
unfoldable pub mounted : Machine
mounted = load (record { state = initial; requests = no_requests })

pub data Reach : Machine → Type 0 where
  mount : Reach mounted
  step : (m : Machine) (e : Event) → Reach m → Reach (handle e m)
