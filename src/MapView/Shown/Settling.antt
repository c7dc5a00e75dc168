-- ===== src/MapView/Shown/Settling.antt =====
-- The loading of a route: the effect for the route in frontend/components/map-view.tsx, with its requests in
-- flight.
use gps_connector.Prelude.{◌≡◌, ℕ, true, false, List, [], ◌∷◌, none, some}
use gps_connector.Geo.{Floats}
use gps_connector.Hooks.Requests.{is_aborted, member, IsOrdered}
use gps_connector.Hooks.Requests.Asked.{AreStarted}
use gps_connector.MapView.{loading, Machine, initial, answered}
use gps_connector.MapView.Days.Steps.{remove}
use gps_connector.MapView.Shown.{Event, runs, gives, fails, chooses, handle, CanChoose}

module _ (fl : Floats) where
  -- The requests in flight after an event.
  abbrev in_flight : Event fl → Machine fl → List ℕ → List ℕ
  in_flight (runs none) m pending = pending
  in_flight (runs (some _)) m pending = m.requests.next ∷ pending
  in_flight (gives id _) m pending = remove id pending
  in_flight (fails id) m pending = remove id pending
  in_flight (chooses _) m pending = pending

  -- Only a request in flight settles.
  abbrev pub IsPossible : Event fl → Machine fl → List ℕ → Type 0
  IsPossible (runs _) m pending = Unit
  IsPossible (gives id _) m pending = member id pending ≡ true
  IsPossible (fails id) m pending = member id pending ≡ true
  IsPossible (chooses index) m pending = CanChoose fl index m.status

  pub data Flight : Machine fl → List ℕ → Type 0 where
    takes_off : Flight (initial fl) []
    next :
        (e : Event fl) (m : Machine fl) (pending : List ℕ)
        → Flight m pending
        → IsPossible e m pending
        → Flight (handle fl e m) (in_flight e m pending)

  abbrev IsAnswered : Machine fl → List ℕ → Type 0
  IsAnswered m pending =
      m.status ≡ loading
      → (id : ℕ) × (is_aborted m.requests id ≡ false) × (member id pending ≡ true)

  record IsWaiting (m : Machine fl) (pending : List ℕ) : Type 0 where
    pub ordered : IsOrdered m.requests
    pub started : AreStarted m.requests
    pub answered : IsAnswered m pending
