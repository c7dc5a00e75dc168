-- ===== src/Hooks/Overview/Latest.antt =====
-- Which answers the overview takes over, and what its two changes do.
use gps_connector.Prelude.{
  ℕ, ◌<◌, ◌≡◌, refl, inl, inr, Text, false, ◌&&◌, not, List, [], ◌∷◌, map, none, filter, arith,
  if_intro, has, text_eq, text_eq_iff, Bool-cases,
}
use gps_connector.Register.{DeviceRecord}
use gps_connector.Hooks.Requests.{
  is_aborted, is_current, IsOrdered, no_requests-IsOrdered, abort_current-IsOrdered,
  start-IsOrdered,
}
use gps_connector.Hooks.Overview.{
  State, Machine, Event, loads, succeeded, failed, updates, removes, unmounted, load, on_devices,
  on_failure, failed_state, remove_record, handle, mounted, Reach, mount, step,
}

handle-IsOrdered :
    (e : Event) (m : Machine) → IsOrdered m.requests → IsOrdered (handle e m).requests
unfolding handle load on_devices on_failure
handle-IsOrdered loads m h = start-IsOrdered m.requests h
handle-IsOrdered (succeeded id records) m h =
    if_intro (λ n. IsOrdered n.requests) (is_aborted m.requests id) m
      (record m { state = record { records = records; loading = false; error = none } }) (λ _. h)
      (λ _. h)
handle-IsOrdered (failed id) m h =
    if_intro (λ n. IsOrdered n.requests) (is_aborted m.requests id) m
      (record m { state = failed_state m.state }) (λ _. h) (λ _. h)
handle-IsOrdered (updates imei updater) m h = h
handle-IsOrdered (removes imei) m h = h
handle-IsOrdered unmounted m h = abort_current-IsOrdered m.requests h

Reach-IsOrdered : (m : Machine) → Reach m → IsOrdered m.requests
unfolding mounted load
Reach-IsOrdered _ mount = start-IsOrdered _ no_requests-IsOrdered
Reach-IsOrdered _ (step m e r) = handle-IsOrdered e m (Reach-IsOrdered m r)

-- In every reachable state, a request that is not the current one is without effect when it settles,
-- with an answer or without.
pub Reach-superseded :
    (m : Machine)
    → Reach m
    → (id : ℕ) (records : List DeviceRecord) → id < m.requests.next
    → is_current m.requests id ≡ false
    → (handle (succeeded id records) m ≡ m) × (handle (failed id) m ≡ m)
unfolding handle on_devices on_failure
Reach-superseded m r id records l c =
    let old = (Reach-IsOrdered m r).0 id l in (ground (arith, old), ground (arith, old))

abbrev pub imei_of : DeviceRecord → Text
imei_of r = r.imei

removed :
    (t imei : Text) (rs : List DeviceRecord)
    → has t (map imei_of (filter (λ r. not (text_eq r.imei imei)) rs))
      ≡ (has t (map imei_of rs) && not (text_eq t imei))
unfolding has
removed t imei [] = refl
removed t imei (r ∷ rs) = elim (Bool-cases (text_eq r.imei imei)) [
  | inl e ↦ rw e (
      ground (
        arith,
        removed t imei rs,
        text_eq_iff r.imei imei,
        text_eq_iff r.imei t,
        text_eq_iff t imei,
      ))
  | inr e ↦ rw e (
      ground (
        arith,
        removed t imei rs,
        text_eq_iff r.imei imei,
        text_eq_iff r.imei t,
        text_eq_iff t imei,
      ))
]

-- A removal takes the records of that IMEI out of the list and no others.
pub has-remove_record :
    (t imei : Text) (s : State)
    → has t (map imei_of (remove_record imei s).records)
      ≡ (has t (map imei_of s.records) && not (text_eq t imei))
unfolding remove_record
has-remove_record t imei s = removed t imei s.records
