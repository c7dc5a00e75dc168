-- ===== src/Hooks/Devices/Latest.antt =====
-- Which answers the polling of the devices takes over.
use gps_connector.Prelude.{
  ℕ, ◌<◌, ◌≡◌, refl, ap, Text, Bool, true, false, ◌&&◌, not, List, [], ◌∷◌, if◌then◌else◌,
  filter_map, arith, if_intro, ◌∙◌,
}
use gps_connector.Client.{Device}
use gps_connector.Locations.{device_to_vehicle, device_to_pending}
use gps_connector.Hooks.Requests.{
  no_requests, abort, is_aborted, is_current, abort_current, IsOrdered, no_requests-IsOrdered,
  abort-IsOrdered, abort_current-IsOrdered, abort_current-aborted, abort_current_next,
  start-IsOrdered, member,
}
use gps_connector.Hooks.Devices.{
  Machine, Event, tick, visibility, timed_out, succeeded, failed, unmounted, initial, fetch_once,
  if_visible, loaded_state, on_devices, on_failure, failed_state, handle, mounted, run, Allowed,
  Reach, mount, step,
}

module _ {Num : Type 0} (iso : ℕ → Text) where
  -- Every request but the current one is aborted, and after the end that one too.
  abbrev IsPolling : Machine Num → Type 0
  IsPolling m =
      IsOrdered m.requests
      × (m.stopped ≡ true → (id : ℕ) → id < m.requests.next → is_aborted m.requests id ≡ true)

  start-IsPolling :
      (m : Machine Num) → m.stopped ≡ false → IsPolling m → IsPolling (fetch_once iso m)
  unfolding fetch_once
  start-IsPolling m e (f, g) = (start-IsOrdered m.requests f, λ h. cc)

  visible-IsPolling :
      (hidden : Bool) (m : Machine Num) → IsPolling m → IsPolling (if_visible iso hidden m)
  unfolding if_visible
  visible-IsPolling hidden m h =
      if_intro IsPolling m.stopped m (if hidden then m else fetch_once iso m) (λ _. h)
        (λ e. if_intro IsPolling hidden m (fetch_once iso m) (λ _. h) (λ _. start-IsPolling m e h))

  devices-IsPolling :
      (devices : List (Device Num)) (m : Machine Num)
      → IsPolling m
      → IsPolling (on_devices iso devices m)
  unfolding on_devices
  devices-IsPolling devices m h =
      if_intro IsPolling m.stopped m (record m { state = loaded_state iso devices }) (λ _. h)
        (λ _. h)

  failure-IsPolling : (id : ℕ) (m : Machine Num) → IsPolling m → IsPolling (on_failure iso id m)
  unfolding on_failure
  failure-IsPolling id m h =
      let failed_m = record m { state = failed_state iso m.state } in
      let late = is_aborted m.requests id && not (is_current m.requests id) in
      if_intro IsPolling m.stopped m (if late then m else failed_m) (λ _. h)
        (λ _. if_intro IsPolling late m failed_m (λ _. h) (λ _. h))

  handle-IsPolling : (e : Event Num) (m : Machine Num) → IsPolling m → IsPolling (handle iso e m)
  unfolding handle
  handle-IsPolling (tick hidden) m h = visible-IsPolling hidden m h
  handle-IsPolling (visibility hidden) m h = visible-IsPolling hidden m h
  handle-IsPolling (timed_out id) m (f, g) = (
    abort-IsOrdered id m.requests f,
    λ h i l. unfold is_aborted abort member in ground (arith, g h i l),
  )
  handle-IsPolling (succeeded id devices) m h = devices-IsPolling devices m h
  handle-IsPolling (failed id) m h = failure-IsPolling id m h
  handle-IsPolling unmounted m (f, g) = (
    abort_current-IsOrdered m.requests f,
    λ h id l. abort_current-aborted m.requests id f (before id l),
  )
    where
      before : (id : ℕ) → id < (abort_current m.requests).next → id < m.requests.next
      before id l = ground (arith, abort_current_next m.requests)

  Reach-IsPolling : (m : Machine Num) → Reach iso m → IsPolling m
  unfolding mounted fetch_once
  Reach-IsPolling _ mount =
      start-IsPolling (record { state = initial; requests = no_requests; stopped = false }) refl
        (no_requests-IsOrdered, λ h. cc)
  Reach-IsPolling _ (step m e r a) = handle-IsPolling e m (Reach-IsPolling m r)

  -- In every reachable state, an answer that may still come is that of the current request, and the
  -- component has not ended; the failure of a request that is not the current one changes nothing.
  pub Reach-latest :
      (m : Machine Num)
      → Reach iso m
      → (id : ℕ)
      → ((devices : List (Device Num))
          → Allowed iso m (succeeded id devices)
          → (is_current m.requests id ≡ true) × (m.stopped ≡ false))
        × (Allowed iso m (failed id)
            → is_current m.requests id ≡ false
            → handle iso (failed id) m ≡ m)
  unfolding handle on_failure
  Reach-latest m r id = (answer_now, late)
    where
      polling : IsPolling m
      polling = Reach-IsPolling m r

      ended : id < m.requests.next → m.stopped ≡ true → is_aborted m.requests id ≡ true
      ended l h = polling.1 h id l

      answer_now :
          (devices : List (Device Num))
          → Allowed iso m (succeeded id devices)
          → (is_current m.requests id ≡ true) × (m.stopped ≡ false)
      answer_now devices (l, a) = ground (arith, polling.0.0 id l, ended l)

      late :
          Allowed iso m (failed id)
          → is_current m.requests id ≡ false
          → handle iso (failed id) m ≡ m
      late l a = ground (arith, polling.0.0 id l)

  -- The devices of the last answer before the component ended.
  abbrev pub last_answer : List (Device Num) → List (Event Num) → List (Device Num)
  last_answer devices [] = devices
  last_answer devices (succeeded id newer ∷ es) = last_answer newer es
  last_answer devices (unmounted ∷ es) = devices
  last_answer devices (_ ∷ es) = last_answer devices es

  stopped-keeps :
      (es : List (Event Num)) (m : Machine Num) → m.stopped ≡ true → (run iso es m).state ≡ m.state
  unfolding run handle if_visible on_devices on_failure fetch_once
  stopped-keeps [] m h = refl
  stopped-keeps (e ∷ es) m h = stopped-keeps es (handle iso e m) (stays e) ∙ kept e
    where
      stays : (e : Event Num) → (handle iso e m).stopped ≡ true
      stays (tick hidden) = ground arith
      stays (visibility hidden) = ground arith
      stays (timed_out id) = h
      stays (succeeded id devices) = ground arith
      stays (failed id) = ground arith
      stays unmounted = refl

      kept : (e : Event Num) → (handle iso e m).state ≡ m.state
      kept (tick hidden) = ground arith
      kept (visibility hidden) = ground arith
      kept (timed_out id) = refl
      kept (succeeded id devices) = ground arith
      kept (failed id) = ground arith
      kept unmounted = refl

  abbrev Shows : List (Device Num) → Machine Num → Type 0
  Shows devices m =
      (m.state.vehicles ≡ filter_map (device_to_vehicle iso) devices)
      × (m.state.pending_devices ≡ filter_map device_to_pending devices)

  from_answer :
      (es : List (Event Num)) (devices : List (Device Num)) (m : Machine Num)
      → m.stopped ≡ false
      → Shows devices m
      → Shows (last_answer devices es) (run iso es m)
  unfolding run handle if_visible on_devices on_failure fetch_once
  from_answer [] devices m e h = h
  from_answer (tick hidden ∷ es) devices m e h =
      from_answer es devices (handle iso (tick hidden) m) (ground arith) (ground arith)
  from_answer (visibility hidden ∷ es) devices m e h =
      from_answer es devices (handle iso (visibility hidden) m) (ground arith) (ground arith)
  from_answer (timed_out id ∷ es) devices m e h =
      from_answer es devices (handle iso (timed_out id) m) e h
  from_answer (succeeded id newer ∷ es) devices m e h =
      from_answer es newer (handle iso (succeeded id newer) m) (ground arith) (ground arith)
  from_answer (failed id ∷ es) devices m e h =
      from_answer es devices (handle iso (failed id) m) (ground arith) (ground arith)
  from_answer (unmounted ∷ es) devices m e h =
      let same = stopped-keeps es (handle iso unmounted m) refl in
      (ap (λ s. s.vehicles) same ∙ h.0, ap (λ s. s.pending_devices) same ∙ h.1)

  -- Whatever happens after the start, the vehicles on the map and the devices without location are those
  -- of one answer, the last one that came before the component ended: neither a failure, nor a
  -- timeout, nor an answer after the end changes them.
  pub run-last_answer :
      (es : List (Event Num))
      → let after = (run iso es (mounted iso)).state in
        let devices = last_answer [] es in
        (after.vehicles ≡ filter_map (device_to_vehicle iso) devices)
        × (after.pending_devices ≡ filter_map device_to_pending devices)
  unfolding mounted fetch_once
  run-last_answer es = from_answer es [] (mounted iso) refl (refl, refl)
