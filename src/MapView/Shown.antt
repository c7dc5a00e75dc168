-- ===== src/MapView/Shown.antt =====
-- What the map page shows while a vehicle is active.
pub mod Settling
use gps_connector.Prelude.{
  sym, ℕ, ◌<◌, ◌≡◌, refl, ap, inl, inr, true, List, Option, none, some, leb, ==_iff, length,
  get_elem?, arith, Bool-cases, if_intro, text_eq_sound,
}
use gps_connector.Geo.{Floats}
use gps_connector.Routes.Fetch.{RouteTrip, VehicleRoute}
use gps_connector.Hooks.Requests.{is_aborted}
use gps_connector.Hooks.Requests.Asked.{
  IsKept, no_requests-IsKept, abort_current-IsKept, start-IsKept,
}
use gps_connector.MapView.{
  RouteKey, is_drawn, same_day, RouteStatus, idle, loading, empty, error, loaded, Machine, initial,
  without_vehicle, cleared, with_request, run_effect, kept_trip, answered, on_route, failed_state,
  on_failure, handle_trip_change,
}

module _ (fl : Floats) where
  -- What happens to the page: the effect runs, a request gives a route or fails, and a trip is chosen.
  pub data Event : Type 0 where
    runs : Option RouteKey → Event
    gives : ℕ → Option (VehicleRoute fl) → Event
    fails : ℕ → Event
    chooses : Option ℕ → Event

  unfoldable pub handle : Event → Machine fl → Machine fl
  handle (runs key) m = run_effect fl key m
  handle (gives id route) m = on_route fl id route m
  handle (fails id) m = on_failure fl id m
  handle (chooses index) m = handle_trip_change fl index m

  abbrev pub IsTrip : Option ℕ → List (RouteTrip fl) → Type 0
  IsTrip none trips = Unit
  IsTrip (some index) trips = index < length trips

  -- The choice of trips has the trips of the route that is shown, and is there only with one.
  abbrev pub CanChoose : Option ℕ → RouteStatus fl → Type 0
  CanChoose index (loaded route) = IsTrip index route.trips
  CanChoose index _ = ⊥

  -- Requests that were sent may settle.
  abbrev pub Allowed : Machine fl → Event → Type 0
  Allowed m (runs key) = Unit
  Allowed m (gives id route) = id < m.requests.next
  Allowed m (fails id) = id < m.requests.next
  Allowed m (chooses index) = CanChoose index m.status

  pub data Reach : Machine fl → Type 0 where
    mount : Reach (initial fl)
    step : (m : Machine fl) (e : Event) → Reach m → Allowed m e → Reach (handle e m)

  -- A route that is shown is that of the active vehicle and day, and the selected trip is one of its trips.
  abbrev pub IsRight : Option RouteKey → Option RouteKey → Option ℕ → RouteStatus fl → Type 0
  IsRight active drawn selected (loaded route) =
      ((key : RouteKey) × (drawn ≡ some key) × (active ≡ some key)) × IsTrip selected route.trips
  IsRight active drawn selected _ = Unit

  abbrev IsActive : Machine fl → RouteKey → Type 0
  IsActive m key = some key ≡ m.active

  -- A request that is not aborted is for the active vehicle and day.
  record IsSound (m : Machine fl) : Type 0 where
    kept : IsKept (IsActive m) m.asked m.requests
    right : IsRight m.active m.drawn m.selected_trip m.status

  drawn_same :
      (drawn : Option RouteKey) (key : RouteKey) → is_drawn drawn key ≡ true → drawn ≡ some key
  unfolding is_drawn same_day
  drawn_same none key h = cc
  drawn_same (some d) key h =
      let i = text_eq_sound d.imei key.imei in
      let n = (==_iff d.day key.day).0 in ap some (ground (arith, i, n))

  kept-IsTrip :
      (trips : List (RouteTrip fl)) (selected : Option ℕ)
      → IsTrip (kept_trip fl (length trips) selected) trips
  kept-IsTrip trips none = tt
  kept-IsTrip trips (some index) = elim (Bool-cases (leb (length trips) index)) [
    | inl e ↦ rw e tt
    | inr e ↦ rw e (ground arith)
  ]

  idle-IsSound : (m : Machine fl) → IsSound m → IsSound (without_vehicle fl m)
  idle-IsSound m s = record {
    kept =
        abort_current-IsKept (IsActive (without_vehicle fl m)) (IsActive m) m.asked m.requests
          s.kept;
    right = tt;
  }

  request-IsSound :
      (m : Machine fl) (key : RouteKey)
      → IsSound m
      → IsRight (some key) m.drawn m.selected_trip m.status
      → IsSound (with_request fl key m)
  request-IsSound m key s r = record {
    kept =
        start-IsKept (IsActive (with_request fl key m)) (IsActive m) m.asked key m.requests s.kept
          refl;
    right = r;
  }

  same-IsRight :
      (key : RouteKey) (active drawn : Option RouteKey) (selected : Option ℕ)
      (status : RouteStatus fl)
      → drawn ≡ some key
      → IsRight active drawn selected status
      → IsRight (some key) drawn selected status
  same-IsRight key active drawn selected (loaded route) e (_, t) = ((key, e, refl), t)
  same-IsRight key active drawn selected idle e r = tt
  same-IsRight key active drawn selected loading e r = tt
  same-IsRight key active drawn selected empty e r = tt
  same-IsRight key active drawn selected error e r = tt

  cleared-IsSound :
      (m : Machine fl) (key : RouteKey)
      → IsSound m
      → IsSound (with_request fl key (cleared fl key m))
  cleared-IsSound m key s =
      let fresh : Machine fl = record m { drawn = none; selected_trip = none; status = loading } in
      if_intro (λ (n : Machine fl). IsSound (with_request fl key n)) (is_drawn m.drawn key) m fresh
        (λ e. request-IsSound m key s (
          same-IsRight key m.active m.drawn m.selected_trip m.status (drawn_same m.drawn key e)
            s.right))
        (λ _. request-IsSound fresh key (record { kept = s.kept; right = tt }) tt)

  answered-IsSound :
      (m : Machine fl) (id : ℕ) (route : Option (VehicleRoute fl))
      → IsSound m
      → (key : RouteKey) × (get_elem? m.asked id ≡ some key) × IsActive m key
      → IsSound (answered fl (get_elem? m.asked id) route m)
  unfolding answered
  answered-IsSound m id none s e = record { kept = s.kept; right = tt }
  answered-IsSound m id (some route) s (key, at, now) = record {
    kept = s.kept;
    right = ((key, at, sym now), kept-IsTrip route.trips m.selected_trip);
  }

  chosen-IsRight :
      (active drawn : Option RouteKey) (index selected : Option ℕ) (status : RouteStatus fl)
      → CanChoose index status
      → IsRight active drawn selected status
      → IsRight active drawn index status
  chosen-IsRight active drawn index selected (loaded route) c (e, _) = (e, c)
  chosen-IsRight active drawn index selected idle c r = tt
  chosen-IsRight active drawn index selected loading c r = tt
  chosen-IsRight active drawn index selected empty c r = tt
  chosen-IsRight active drawn index selected error c r = tt

  handle-IsSound : (e : Event) (m : Machine fl) → Allowed m e → IsSound m → IsSound (handle e m)
  unfolding handle run_effect on_route on_failure handle_trip_change
  handle-IsSound (runs none) m a s = idle-IsSound m s
  handle-IsSound (runs (some key)) m a s = cleared-IsSound m key s
  handle-IsSound (gives id route) m a s =
      if_intro IsSound (is_aborted m.requests id) m (answered fl (get_elem? m.asked id) route m)
        (λ _. s) (λ e. answered-IsSound m id route s (s.kept.3 id a e))
  handle-IsSound (fails id) m a s =
      if_intro IsSound (is_aborted m.requests id) m (failed_state fl m) (λ _. s)
        (λ _. record { kept = s.kept; right = tt })
  handle-IsSound (chooses index) m a s = record {
    kept = s.kept;
    right = chosen-IsRight m.active m.drawn index m.selected_trip m.status a s.right;
  }

  Reach-IsSound : (m : Machine fl) → Reach m → IsSound m
  Reach-IsSound _ mount = record { kept = no_requests-IsKept (IsActive (initial fl)); right = tt }
  Reach-IsSound _ (step m e r a) = handle-IsSound e m a (Reach-IsSound m r)

  -- Whenever a route is shown, in whatever order vehicles, days and trips are chosen and requests settle,
  -- there is an active vehicle, the route is the answer for it and for the day that is active then, and
  -- the selected trip, if there is one, is one of its trips.
  pub Reach-IsRight : (m : Machine fl) → Reach m → IsRight m.active m.drawn m.selected_trip m.status
  Reach-IsRight m r = (Reach-IsSound m r).right
