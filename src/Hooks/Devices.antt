-- ===== src/Hooks/Devices.antt =====
-- The polling of the devices on the map: frontend/hooks/use-devices.ts. `iso` writes a time as text.
pub mod Latest
use gps_connector.Prelude.{
  ℕ, ◌<◌, ◌≡◌, refl, inl, inr, Text, codes, Bool, true, false, ◌&&◌, not, List, [], ◌∷◌, Option,
  none, some, if◌then◌else◌, filter_map, arith,
}
use gps_connector.Client.{Device}
use gps_connector.Locations.{VehicleLocation, PendingDevice, device_to_vehicle, device_to_pending}
use gps_connector.Hooks.Requests.{
  Requests, no_requests, abort, is_aborted, is_current, abort_current, start, IsOrdered,
  no_requests-IsOrdered, abort-IsOrdered, abort_current-IsOrdered, abort_current-aborted,
  start-IsOrdered,
}

pub record State (Num : Type 0) : Type 0 where
  pub vehicles : List (VehicleLocation Num)
  pub pending_devices : List PendingDevice
  pub error : Option Text
  pub loaded : Bool

-- The state with the two variables of the effect, `abortRef` and `stopped`.
pub record Machine (Num : Type 0) : Type 0 where
  pub state : State Num
  pub requests : Requests
  pub stopped : Bool

-- What the effect reacts to: the interval, a change of the document's visibility, the timeout of a
-- request, the answer to a request or its failure, and the end of the component.
pub data Event (Num : Type 0) : Type 0 where
  tick : (hidden : Bool) → Event Num
  visibility : (hidden : Bool) → Event Num
  timed_out : ℕ → Event Num
  succeeded : ℕ → List (Device Num) → Event Num
  failed : ℕ → Event Num
  unmounted : Event Num

module _ {Num : Type 0} where
  abbrev pub initial : State Num
  initial = record { vehicles = []; pending_devices = []; error = none; loaded = false }

module _ {Num : Type 0} (iso : ℕ → Text) where
  -- `fetchOnce` up to the call of `getDevices`.
  unfoldable pub fetch_once : Machine Num → Machine Num
  fetch_once m = record m { requests = start m.requests }

  -- The interval and the listener, which the end of the component removes.
  if_visible : Bool → Machine Num → Machine Num
  unfolding fetch_once
  if_visible hidden m = if m.stopped then m else if hidden then m else fetch_once m

  abbrev pub loaded_state : List (Device Num) → State Num
  loaded_state devices = record {
    vehicles = filter_map (device_to_vehicle iso) devices;
    pending_devices = filter_map device_to_pending devices;
    error = none;
    loaded = true;
  }

  -- `fetchOnce` after the call, in the `try` and in the `catch` part.
  unfoldable pub on_devices : List (Device Num) → Machine Num → Machine Num
  on_devices devices m = if m.stopped then m else record m { state = loaded_state devices }

  abbrev failed_state : State Num → State Num
  failed_state s = record s { error = some (codes "Could not load vehicles"); loaded = true }

  unfoldable pub on_failure : ℕ → Machine Num → Machine Num
  on_failure id m =
      if m.stopped
      then m
      else if is_aborted m.requests id && not (is_current m.requests id)
      then m
      else record m { state = failed_state m.state }

  unfoldable pub handle : Event Num → Machine Num → Machine Num
  unfolding if_visible
  handle (tick hidden) m = if_visible hidden m
  handle (visibility hidden) m = if_visible hidden m
  handle (timed_out id) m = record m { requests = abort id m.requests }
  handle (succeeded id devices) m = on_devices devices m
  handle (failed id) m = on_failure id m
  handle unmounted m = record m { stopped = true; requests = abort_current m.requests }

  -- The component once it is mounted, with its first request.
  unfoldable pub mounted : Machine Num
  mounted = fetch_once (record { state = initial; requests = no_requests; stopped = false })

  unfoldable pub run : List (Event Num) → Machine Num → Machine Num
  run [] m = m
  run (e ∷ es) m = run es (handle e m)

  -- A request that was sent may fail, but one that is aborted has no answer: `fetch` rejects.
  abbrev pub Allowed : Machine Num → Event Num → Type 0
  Allowed m (succeeded id devices) = (id < m.requests.next) × (is_aborted m.requests id ≡ false)
  Allowed m (failed id) = id < m.requests.next
  Allowed m (timed_out id) = id < m.requests.next
  Allowed m _ = Unit

  pub data Reach : Machine Num → Type 0 where
    mount : Reach mounted
    step : (m : Machine Num) (e : Event Num) → Reach m → Allowed m e → Reach (handle e m)
