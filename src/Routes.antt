-- ===== src/Routes.antt =====
-- A vehicle's trips on one day: frontend/lib/vehicle-routes.ts.
mod Tests
pub mod Chunks
pub mod Trips
pub mod Links
pub mod Stitch
pub mod Fetch
use gps_connector.Prelude.{
  ℕ, zero, suc, ◌+◌, ◌-◌, Bool, true, false, ◌&&◌, ◌||◌, not, Option, none, some, List, [], ◌∷◌,
  ◌++◌, map, reverse, Text, leb, ltb, ◌==◌, if◌then◌else◌, length, take, drop,
}
use gps_connector.Client.{PositionRow}
use gps_connector.Geo.{Floats, Coordinates, coordinates_of, haversine_meters}

abbrev pub max_coordinates_per_request : ℕ
max_coordinates_per_request = 100

abbrev pub stop_radius_meters : ℕ
stop_radius_meters = 50

abbrev pub stop_min_duration_seconds : ℕ
stop_min_duration_seconds = 300

abbrev pub min_trip_distance_meters : ℕ
min_trip_distance_meters = 100

abbrev pub stitch_max_gap_meters : ℕ
stitch_max_gap_meters = 30

-- The loop of `chunkPositions` from `i` on, over `positions.slice(i)`. Each round but the last drops
-- 99 positions, so that the number of positions is fuel enough.
unfoldable pub chunks_from {ℓ} : {A : Type ℓ} → ℕ → List A → List (List A)
chunks_from zero rest = []
chunks_from (suc fuel) [] = []
chunks_from (suc fuel) (p ∷ ps) =
    let slice = take max_coordinates_per_request (p ∷ ps) in
    let later = chunks_from fuel (drop (max_coordinates_per_request - 1) (p ∷ ps)) in
    let more = slice ∷ later in if ltb (length slice) 2 then [] else more

unfoldable pub chunk_positions {ℓ} : {A : Type ℓ} → List A → List (List A)
chunk_positions positions = chunks_from (length positions) positions

-- The variables of the loop of `splitIntoTrips`; `previous` is `positions[i - 1]`.
pub record Split (A : Type 0) : Type 0 where
  pub trips : List (List A)
  pub trip : List A
  pub anchor : A
  pub last_near_anchor : A
  pub stopped : Bool
  pub previous : A

module _ (fl : Floats) where
  open fl use {Num}

  unfoldable pub distance_between : PositionRow Num → PositionRow Num → Num
  distance_between a b = haversine_meters fl (coordinates_of a) (coordinates_of b)

  -- `haversineMeters(anchor, position) <= STOP_RADIUS_METERS`
  unfoldable pub is_near : PositionRow Num → PositionRow Num → Bool
  is_near anchor position = fl.leb (distance_between anchor position) (fl.of_nat stop_radius_meters)

  -- Timestamps are natural numbers: a negative difference fails the test, as a difference cut at 0 does.
  abbrev pub is_stop : PositionRow Num → PositionRow Num → Bool
  is_stop earlier later =
      leb stop_min_duration_seconds (later.device_timestamp - earlier.device_timestamp)

  -- One round of the loop.
  unfoldable pub split_step : Split (PositionRow Num) → PositionRow Num → Split (PositionRow Num)
  split_step s position =
      let stopped = s.stopped || is_stop s.previous position in
      let near : Split (PositionRow Num) = record s {
        last_near_anchor = position;
        stopped = stopped || is_stop s.anchor position;
        previous = position;
      } in
      let cut : Split (PositionRow Num) = record {
        trips = s.trips ++ s.trip ∷ [];
        trip = s.last_near_anchor ∷ position ∷ [];
        anchor = position;
        last_near_anchor = position;
        stopped = false;
        previous = position;
      } in
      let moved : Split (PositionRow Num) = record {
        trips = s.trips;
        trip = s.trip ++ position ∷ [];
        anchor = position;
        last_near_anchor = position;
        stopped = stopped;
        previous = position;
      } in
      if is_near s.anchor position then near else if stopped then cut else moved

  unfoldable pub split_from :
      Split (PositionRow Num) → List (PositionRow Num) → Split (PositionRow Num)
  split_from s [] = s
  split_from s (p ∷ ps) = split_from (split_step s p) ps

  abbrev pub split_start : PositionRow Num → Split (PositionRow Num)
  split_start first = record {
    trips = [];
    trip = first ∷ [];
    anchor = first;
    last_near_anchor = first;
    stopped = false;
    previous = first;
  }

  -- `splitIntoTrips` on a first position and the others; the caller passes at least two.
  unfoldable pub split_into_trips :
      PositionRow Num → List (PositionRow Num) → List (List (PositionRow Num))
  split_into_trips first rest =
      let s = split_from (split_start first) rest in s.trips ++ s.trip ∷ []

  -- The loop of `tripDistanceMeters` after a position, with the sum so far.
  unfoldable pub distance_from : Num → PositionRow Num → List (PositionRow Num) → Num
  distance_from total p [] = total
  distance_from total p (q ∷ qs) = distance_from (fl.add total (distance_between p q)) q qs

  unfoldable pub trip_distance_meters : List (PositionRow Num) → Num
  trip_distance_meters [] = fl.of_nat 0
  trip_distance_meters (p ∷ ps) = distance_from (fl.of_nat 0) p ps

  -- `tripMovementStart`; a trip is never empty, and an empty one would throw.
  unfoldable pub trip_movement_start : List (PositionRow Num) → Option ℕ
  trip_movement_start [] = none
  trip_movement_start (p ∷ []) = some p.device_timestamp
  trip_movement_start (p ∷ q ∷ _) =
      some (if is_stop p q then q.device_timestamp else p.device_timestamp)
