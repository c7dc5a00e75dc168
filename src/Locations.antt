-- ===== src/Locations.antt =====
-- Vehicles on the map: frontend/lib/vehicle-locations.ts. `iso` writes a time in seconds as text; for a past day
-- it may throw, which is `none`, while the times of the devices are taken to be in range.
mod Tests
pub mod Partition
pub mod Day
use gps_connector.Prelude.{
  ℕ, Text, Bool, true, false, ◌&&◌, not, List, [], ◌∷◌, ◌++◌, map, Option, none, some, ltb, ◌==◌,
  if◌then◌else◌, or_else, filter_map,
}
use gps_connector.Promise.{Failure, Settled, fulfilled, rejected, ◌>>=◌, written}
use gps_connector.Client.{Device, PositionRow}

pub data Status : Type 0 where
  driving stationary : Status

pub record VehicleLocation (Num : Type 0) : Type 0 where
  pub id : Text
  pub plate : Text
  pub status : Status
  pub coordinates : Num × Num
  pub last_update : Option Text
  pub make : Text
  pub model : Text
  pub fleet_id : Text
  pub imei : Text
  pub vehicle_type : Option Text
  pub ignition : Option Bool
  pub associated_location : Option Text
  pub fuel_type : Option Text
  pub capacity : Option Num
  pub leasing_end_date : Option Text

pub record PendingDevice : Type 0 where
  pub id : Text
  pub imei : Text
  pub plate : Text
  pub make : Text
  pub model : Text
  pub fleet_id : Text

-- `flag === 1`
abbrev pub is_one : Option ℕ → Bool
is_one none = false
is_one (some n) = n == 1

abbrev pub status_of : Option ℕ → Status
status_of moving = if is_one moving then driving else stationary

abbrev pub map_option {ℓ κ} : {A : Type ℓ} {B : Type κ} → (A → B) → Option A → Option B
map_option f none = none
map_option f (some a) = some (f a)

-- `time ? iso(time) : undefined`, where the time 0 counts as none
abbrev pub iso_if_set : (ℕ → Text) → Option ℕ → Option Text
iso_if_set iso none = none
iso_if_set iso (some t) = if t == 0 then none else some (iso t)

-- The vehicles found so far, and the failure that was caught first.
pub record DayResult (Num : Type 0) : Type 0 where
  pub found : List (VehicleLocation Num)
  pub failure : Option Failure

module _ {Num : Type 0} where
  pending_of : Device Num → PendingDevice
  pending_of device = record {
    id = device.imei;
    imei = device.imei;
    plate = or_else device.plate [];
    make = or_else device.make [];
    model = or_else device.model [];
    fleet_id = or_else device.vehicle_id [];
  }

  -- Whether both coordinates are known.
  located : Option Num → Option Num → Option (Num × Num)
  located (some latitude) (some longitude) = some (longitude, latitude)
  located _ _ = none

  unfoldable pub device_to_pending : Device Num → Option PendingDevice
  unfolding located pending_of
  device_to_pending device = elim (located device.latitude device.longitude) [
    | some _ ↦ none
    | none ↦ some (pending_of device)
  ]

  vehicle_of : (ℕ → Text) → Device Num → Num × Num → VehicleLocation Num
  vehicle_of iso device coordinates = record {
    id = device.imei;
    plate = or_else device.plate [];
    status = status_of device.moving;
    coordinates = coordinates;
    last_update = iso_if_set iso device.device_timestamp;
    make = or_else device.make [];
    model = or_else device.model [];
    fleet_id = or_else device.vehicle_id [];
    imei = device.imei;
    vehicle_type = device.vehicle_type;
    ignition = map_option (λ n. n == 1) device.ignition;
    associated_location = device.associated_location;
    fuel_type = device.fuel_type;
    capacity = device.capacity;
    leasing_end_date = map_option iso device.leasing_end_date;
  }

  unfoldable pub device_to_vehicle : (ℕ → Text) → Device Num → Option (VehicleLocation Num)
  unfolding located vehicle_of
  device_to_vehicle iso device = elim (located device.latitude device.longitude) [
    | some coordinates ↦ some (vehicle_of iso device coordinates)
    | none ↦ none
  ]

  -- The reduction that finds the row with the latest time, the first such row on a tie.
  unfoldable pub latest_from : PositionRow Num → List (PositionRow Num) → PositionRow Num
  latest_from latest [] = latest
  latest_from latest (row ∷ rows) =
      latest_from (if ltb latest.device_timestamp row.device_timestamp then row else latest) rows

  abbrev pub moved_to : VehicleLocation Num → PositionRow Num → Text → VehicleLocation Num
  moved_to vehicle last time = record vehicle {
    coordinates = (last.longitude, last.latitude);
    status = status_of last.moving;
    last_update = some time;
  }

  -- The vehicle at its last position of the day, if it has one and the time of that can be written.
  unfoldable pub locate :
      (ℕ → Option Text)
      → VehicleLocation Num
      → List (PositionRow Num)
      → Settled (Option (VehicleLocation Num))
  locate iso vehicle [] = fulfilled none
  locate iso vehicle (p ∷ ps) =
      let last = latest_from p ps in
      do time ← written (iso last.device_timestamp); fulfilled (some (moved_to vehicle last time))

  caught : Failure → DayResult Num → DayResult Num
  caught e day = record day { failure = some e }

  kept : Settled (Option (VehicleLocation Num)) → DayResult Num → DayResult Num
  unfolding caught
  kept (rejected e) day = caught e day
  kept (fulfilled none) day = day
  kept (fulfilled (some v)) day = record day { found = v ∷ day.found }

  settle_one :
      (ℕ → Option Text)
      → VehicleLocation Num
      → Settled (List (PositionRow Num))
      → DayResult Num
      → DayResult Num
  unfolding kept
  settle_one iso vehicle answer day = kept (answer >>= locate iso vehicle) day

  -- The requests of all vehicles, taken to fail in the order of the vehicles.
  unfoldable pub settle_all :
      (ℕ → Option Text)
      → (VehicleLocation Num → Settled (List (PositionRow Num)))
      → List (VehicleLocation Num)
      → DayResult Num
  unfolding settle_one
  settle_all iso positions [] = record { found = []; failure = none }
  settle_all iso positions (v ∷ vs) = settle_one iso v (positions v) (settle_all iso positions vs)

  day_result : DayResult Num → Settled (List (VehicleLocation Num))
  day_result day = elim day.found [
    | v ∷ vs ↦ fulfilled (v ∷ vs)
    | [] ↦ elim day.failure [ none ↦ fulfilled [] | some e ↦ rejected e ]
  ]

  -- `fetchDayVehicleLocations`, with the answers of `getPositions` for each vehicle.
  unfoldable pub fetch_day_vehicle_locations :
      (ℕ → Option Text)
      → (VehicleLocation Num → Settled (List (PositionRow Num)))
      → List (VehicleLocation Num)
      → Settled (List (VehicleLocation Num))
  unfolding day_result
  fetch_day_vehicle_locations iso positions vehicles =
      day_result (settle_all iso positions vehicles)
