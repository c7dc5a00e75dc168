-- ===== src/MapView/Whole/Agreement.antt =====
-- The route on the map is that of the vehicle and the day of the page.
use gps_connector.Prelude.{
  ◌≡◌, refl, ap, sym, ◌∙◌, inl, inr, ℕ, Text, true, [], ◌∷◌, Option, none, some, ==_iff, if_intro,
  text_eq_sound, arith, Option-cases, get_elem?,
}
use gps_connector.Geo.{Floats}
use gps_connector.Routes.Fetch.{VehicleRoute}
use gps_connector.Locations.{VehicleLocation}
use gps_connector.Hooks.Requests.{is_aborted}
use gps_connector.MapView.{
  RouteKey, RouteStatus, idle, loading, empty, error, loaded, Machine, run_effect, on_route,
  answered, on_failure, failed_state, handle_trip_change,
}
use gps_connector.MapView.Days.{Page, World, active_vehicle, route_key, key_for}
use gps_connector.MapView.Days.Steps
use gps_connector.MapView.Shown
use gps_connector.MapView.Shown.{IsTrip, IsRight, Reach-IsRight}
use gps_connector.MapView.Whole.{
  same_text, active_imei, same_dependencies, Whole, of_page, gives, fails, chooses, rendered,
  handle, Reach, mount, step,
}

same_text_sound : (s t : Option Text) → same_text s t ≡ true → s ≡ t
same_text_sound none none h = refl
same_text_sound (some s) (some t) h = ap some (text_eq_sound s t h)
same_text_sound none (some t) h = cc
same_text_sound (some s) none h = cc

abbrev key_of : ℕ → Option Text → Option RouteKey
key_of day none = none
key_of day (some imei) = key_for day imei

key_for-some :
    (day : ℕ) (imei : Text) (key : RouteKey)
    → key_for day imei ≡ some key
    → key ≡ record { imei = imei; day = day }
key_for-some day [] key h = cc
key_for-some day (c ∷ s) key h = cc

module _ {Num : Type 0} where
  route_key_lem : (p : Page Num) → route_key p ≡ key_of p.selected_day (active_imei p)
  unfolding route_key
  route_key_lem p = elim (Option-cases (active_vehicle p)) [
    | inl e ↦ rw (e, route_key) refl
    | inr (v, e) ↦ rw (e, route_key) refl
  ]

  -- The key changes only with the dependencies.
  same_dependencies-route_key :
      (p q : Page Num) → same_dependencies p q ≡ true → route_key p ≡ route_key q
  unfolding same_dependencies
  same_dependencies-route_key p q h =
      let imei = same_text_sound (active_imei p) (active_imei q) (ground arith) in
      let day = (==_iff p.selected_day q.selected_day).0 (ground arith) in
      route_key_lem p
      ∙ ap (λ d. key_of d (active_imei p)) day
      ∙ ap (key_of q.selected_day) imei
      ∙ sym (route_key_lem q)

  -- A key is that of the active vehicle and the selected day.
  route_key-vehicle :
      (p : Page Num) (key : RouteKey)
      → route_key p ≡ some key
      → (v : VehicleLocation Num) × (active_vehicle p ≡ some v)
        × (key ≡ record { imei = v.imei; day = p.selected_day })
  unfolding route_key
  route_key-vehicle p key h = elim (Option-cases (active_vehicle p)) [
    | inl e ↦ absurd (missing e)
    | inr (v, e) ↦ (v, e, key_for-some p.selected_day v.imei key (found v e))
  ]
    where
      missing : active_vehicle p ≡ none → ⊥
      missing e = let n : route_key p ≡ none = rw (e, route_key) refl in cc

      found :
          (v : VehicleLocation Num)
          → active_vehicle p ≡ some v
          → key_for p.selected_day v.imei ≡ some key
      found v e =
          let k : route_key p ≡ key_for p.selected_day v.imei = rw (e, route_key) refl in sym k ∙ h

module _ (fl : Floats) (world : World fl.Num) where
  -- The route's effect has run for the key that the page has.
  record Agrees (w : Whole fl world) : Type 0 where
    reached : Shown.Reach fl w.route
    key : w.route.active ≡ route_key w.page

  run_effect-active : (key : Option RouteKey) (m : Machine fl) → (run_effect fl key m).active ≡ key
  unfolding run_effect
  run_effect-active none m = refl
  run_effect-active (some key) m = refl

  answered-active :
      (key : Option RouteKey) (route : Option (VehicleRoute fl)) (m : Machine fl)
      → (answered fl key route m).active ≡ m.active
  unfolding answered
  answered-active key none m = refl
  answered-active key (some route) m = refl

  on_route-active :
      (id : ℕ) (route : Option (VehicleRoute fl)) (m : Machine fl)
      → (on_route fl id route m).active ≡ m.active
  unfolding on_route
  on_route-active id route m =
      if_intro (λ (n : Machine fl). n.active ≡ m.active) (is_aborted m.requests id) m
        (answered fl (get_elem? m.asked id) route m) (λ _. refl)
        (λ _. answered-active (get_elem? m.asked id) route m)

  on_failure-active : (id : ℕ) (m : Machine fl) → (on_failure fl id m).active ≡ m.active
  unfolding on_failure
  on_failure-active id m =
      if_intro (λ (n : Machine fl). n.active ≡ m.active) (is_aborted m.requests id) m
        (failed_state fl m) (λ _. refl) (λ _. refl)

  rendered-Agrees :
      (p : Page fl.Num) (w : Whole fl world) → Agrees w → Agrees (rendered fl world p w)
  unfolding rendered Shown.handle
  rendered-Agrees p w a =
      if_intro (λ (m : Machine fl). Agrees (record { page = p; route = m }))
        (same_dependencies w.page p) w.route (run_effect fl (route_key p) w.route)
        (λ e. record { reached = a.reached; key = a.key ∙ same_dependencies-route_key w.page p e })
        (λ _. record {
          reached = Shown.step w.route (Shown.runs (route_key p)) a.reached tt;
          key = run_effect-active (route_key p) w.route;
        })

  Reach-Agrees : (w : Whole fl world) → Reach fl world w → Agrees w
  unfolding handle Shown.handle handle_trip_change route_key active_vehicle
  Reach-Agrees _ (mount today) = record { reached = Shown.mount; key = refl }
  Reach-Agrees _ (step (of_page e) w r a) =
      rendered-Agrees (Steps.handle world e w.page) w (Reach-Agrees w r)
  Reach-Agrees _ (step (gives id route) w r a) =
      let b = Reach-Agrees w r in
      record {
        reached = Shown.step w.route (Shown.gives id route) b.reached a;
        key = on_route-active id route w.route ∙ b.key;
      }
  Reach-Agrees _ (step (fails id) w r a) =
      let b = Reach-Agrees w r in
      record {
        reached = Shown.step w.route (Shown.fails id) b.reached a;
        key = on_failure-active id w.route ∙ b.key;
      }
  Reach-Agrees _ (step (chooses index) w r a) =
      let b = Reach-Agrees w r in
      record { reached = Shown.step w.route (Shown.chooses index) b.reached a; key = b.key }

  -- The route that a page shows, against its vehicles: it is drawn for the active one and for the day.
  abbrev pub IsOfVehicle : Whole fl world → RouteStatus fl → Type 0
  IsOfVehicle w (loaded route) =
      (v : VehicleLocation fl.Num) × (active_vehicle w.page ≡ some v)
      × (w.route.drawn ≡ some (record { imei = v.imei; day = w.page.selected_day }))
      × IsTrip fl w.route.selected_trip route.trips
  IsOfVehicle w _ = Unit

  of_vehicle :
      (w : Whole fl world) (status : RouteStatus fl)
      → Agrees w
      → IsRight fl w.route.active w.route.drawn w.route.selected_trip status
      → IsOfVehicle w status
  of_vehicle w (loaded route) a ((key, drawn, active), t) =
      let (v, e, k) = route_key-vehicle w.page key (sym a.key ∙ active) in
      (v, e, drawn ∙ ap some k, t)
  of_vehicle w idle a r = tt
  of_vehicle w loading a r = tt
  of_vehicle w empty a r = tt
  of_vehicle w error a r = tt

  -- In whatever order days and vehicles are chosen, positions and days are loaded, routes are found or fail
  -- and trips are chosen, a page that shows a route has an active vehicle among those that it displays,
  -- the route that is drawn is that of its IMEI and of the selected day, and the selected trip is one of
  -- the route's trips.
  pub Reach-IsOfVehicle : (w : Whole fl world) → Reach fl world w → IsOfVehicle w w.route.status
  Reach-IsOfVehicle w r =
      let a = Reach-Agrees w r in of_vehicle w w.route.status a (Reach-IsRight fl w.route a.reached)
