-- ===== src/MapView/Days/Settling.antt =====
-- The state of the day and the loading of a past day, whatever happens.
use gps_connector.Prelude.{
  ◌≡◌, refl, sym, ℕ, Text, Bool, true, false, ◌&&◌, List, Option, none, some, arith, if_intro,
  text_eq, text_eq_sound, get_elem?, ◌==◌, subst,
}
use gps_connector.Promise.{Settled, fulfilled, rejected}
use gps_connector.Locations.{VehicleLocation}
use gps_connector.Hooks.Requests.{member}
use gps_connector.Hooks.Requests.Asked.{no_requests-IsKept}
use gps_connector.MapView.{DayState, loading, error, loaded}
use gps_connector.MapView.Days.{
  Asked, Page, World, imei_key, initial, day_effect, on_day, handle_day_change, seen, same_bool,
  rerender, state_of, located_for, on_located, focus_vehicle, clear_vehicle,
}
use gps_connector.MapView.Days.Steps.{
  Event, picks, renders, settles, focuses, unfocuses, Allowed, settle, handle, in_flight, Reach,
  mount, step, Fits, HasSource,
}
use gps_connector.MapView.Days.Sound.{
  IsSound, IsSoundFrom, effect-IsSound, same_requests, source_of, seen-IsSound, settle-IsSound,
}

same_bool_sound : (a b : Bool) → same_bool a b ≡ true → a ≡ b
same_bool_sound true b h = sym h
same_bool_sound false false h = refl
same_bool_sound false true h = cc

module _ {Num : Type 0} (world : World Num) where
  -- Choosing a vehicle changes nothing that the sources need.
  focused :
      (p : Page Num) (pending : List ℕ) (active : Option Text)
      → IsSound world p pending
      → IsSound world (record p { active_vehicle_id = active }) pending
  focused p pending active s = record {
    kept = s.kept;
    source =
        source_of world p (record p { active_vehicle_id = active }) pending pending p.day_state refl
          refl (λ a f. f) (λ h. h) s.source;
  }

  handle-IsSound :
      (e : Event Num) (p : Page Num) (pending : List ℕ)
      → Allowed e pending
      → IsSound world p pending
      → IsSound world (handle world e p) (in_flight world e p pending)
  unfolding handle handle_day_change rerender focus_vehicle clear_vehicle
  handle-IsSound (picks day is_today) p pending a s =
      if_intro (IsSoundFrom world p pending) (day == p.selected_day) p
        (day_effect (on_day day is_today p)) (λ _. same_requests world p p pending refl s)
        (λ _. effect-IsSound world (Fits p) (on_day day is_today p) pending s.kept)
  handle-IsSound (renders is_today vehicles) p pending a s =
      let q = seen is_today vehicles p in
      if_intro (IsSoundFrom world p pending)
        (same_bool is_today p.is_current_day && text_eq (imei_key vehicles) (imei_key p.vehicles)) q
        (day_effect q)
        (λ e. same_requests world p q pending refl (
          seen-IsSound world p pending is_today vehicles
            (same_bool_sound is_today p.is_current_day (ground arith))
            (text_eq_sound (imei_key vehicles) (imei_key p.vehicles) (ground arith)) s))
        (λ _. effect-IsSound world (Fits p) q pending s.kept)
  handle-IsSound (settles id) p pending a s = settle-IsSound world p pending id s
  handle-IsSound (focuses v) p pending a s =
      same_requests world p (focus_vehicle v p) pending refl (focused p pending (some v.id) s)
  handle-IsSound unfocuses p pending a s =
      same_requests world p (clear_vehicle p) pending refl (focused p pending none s)

  Reach-IsSound :
      (p : Page Num) (pending : List ℕ) → Reach world p pending → IsSound world p pending
  Reach-IsSound _ _ (mount today) = record {
    kept = no_requests-IsKept (Fits (initial today));
    source = refl;
  }
  Reach-IsSound _ _ (step e p pending r a) =
      handle-IsSound e p pending a (Reach-IsSound p pending r)

  -- In whatever order days are picked, devices and midnights pass and requests settle, what the page has for
  -- the day is the present if the selected day is the present one; otherwise the positions of a loaded
  -- day are what one of the page's requests gave, which asked for the selected day and for vehicles
  -- with the IMEIs of the page; and while the day is loading a request that is not aborted is in flight.
  pub Reach-HasSource :
      (p : Page Num) (pending : List ℕ)
      → Reach world p pending
      → HasSource world p pending p.day_state
  Reach-HasSource p pending r = (Reach-IsSound p pending r).source

  -- The page has the positions that a request gave, or an error if it failed.
  abbrev pub HasOutcome : Settled (List (VehicleLocation Num)) → DayState Num → Type 0
  HasOutcome (fulfilled located) day = day ≡ loaded located
  HasOutcome (rejected _) day = day ≡ error

  -- The page does not load for ever: while it loads there is a request in flight that asked for the selected
  -- day, and once that settles the page has the positions that it gave, or an error if it failed.
  pub Reach-settles :
      (p : Page Num) (pending : List ℕ)
      → Reach world p pending
      → p.day_state ≡ loading
      → (id : ℕ) × (a : Asked Num) × (member id pending ≡ true)
        × (get_elem? p.asked id ≡ some a)
        × (a.day ≡ p.selected_day)
        × HasOutcome (located_for world id a) (handle world (settles id) p).day_state
  unfolding handle on_located
  Reach-settles p pending r e =
      let s = Reach-IsSound p pending r in
      let (id, l, n, m) = subst (HasSource world p pending) e s.source in
      let (a, at, f) = s.kept.3 id l n in
      (id, a, m, at, f.0, rw (at, n, settle) (ends (located_for world id a)))
    where
      ends : (o : Settled (List (VehicleLocation Num))) → HasOutcome o (state_of o)
      ends (fulfilled vehicles) = refl
      ends (rejected failure) = refl
