-- ===== src/Routes/Fetch.antt =====
-- The route of a vehicle: `fetchVehicleRoute`, `matchTrip` and `matchChunk` of
-- frontend/lib/vehicle-routes.ts. The map matching service is a function from requests to answers.
pub mod Lines
pub mod Matched
pub mod Given
pub mod Safe
use gps_connector.Prelude.{
  ℕ, Bool, true, false, ◌&&◌, not, Option, none, some, List, [], ◌∷◌, ◌++◌, map, Text, leb, ltb,
  if◌then◌else◌, length, filter, or_else,
}
use gps_connector.Prelude.Sort.{sort_by}
use gps_connector.Client.{PositionRow}
use gps_connector.Geo.{Floats}
use gps_connector.Promise.{Failure, Settled, fulfilled, rejected, ◌>>=◌, checked, written}
use gps_connector.Routes.{
  min_trip_distance_meters, chunk_positions, split_into_trips, trip_distance_meters,
  trip_movement_start,
}
use gps_connector.Routes.Stitch.{Position, stitch_segments, last?}

abbrev pub snap_radius_meters : ℕ
snap_radius_meters = 25

pub data GeometryType : Type 0 where
  line_string other : GeometryType

module _ (fl : Floats) where
  open fl use {Num}

  pub record Geometry : Type 0 where
    pub kind : GeometryType
    pub coordinates : List (Position Num)

  pub record Matching : Type 0 where
    pub geometry : Option Geometry
    pub distance : Option Num

  -- What the address of a request is made of.
  pub record Request : Type 0 where
    pub coordinates : List (Position Num)
    pub timestamps : List ℕ
    pub radiuses : List ℕ
    pub token : Text

  pub record ChunkMatch : Type 0 where
    pub segments : List (List (Position Num))
    pub distance_meters : Num

  pub record TripMatch : Type 0 where
    pub segments : List (List (Position Num))
    pub distance_meters : Num
    pub failure : Option Failure

  pub record RouteTrip : Type 0 where
    pub segments : List (List (Position Num))
    pub distance_meters : Num
    pub first_movement : Text
    pub last_movement : Text

  pub record RouteSummary : Type 0 where
    pub distance_meters : Num
    pub first_movement : Text
    pub last_movement : Text

  pub record VehicleRoute : Type 0 where
    pub trips : List RouteTrip
    pub summary : RouteSummary

  unfoldable pub request_for : Text → List (PositionRow Num) → Request
  request_for token chunk = record {
    coordinates = map (λ (p : PositionRow Num). (p.longitude, p.latitude)) chunk;
    timestamps = map (λ (p : PositionRow Num). p.device_timestamp) chunk;
    radiuses = map (λ (p : PositionRow Num). snap_radius_meters) chunk;
    token = token;
  }

  abbrev is_line_string : GeometryType → Bool
  is_line_string line_string = true
  is_line_string other = false

  -- One round of the loop over the matchings.
  unfoldable pub take_matching : ChunkMatch → Option Num → Option Geometry → ChunkMatch
  take_matching c distance none = c
  take_matching c distance (some g) =
      if is_line_string g.kind && leb 2 (length g.coordinates)
      then record {
        segments = c.segments ++ g.coordinates ∷ [];
        distance_meters = fl.add c.distance_meters (or_else distance (fl.of_nat 0));
      }
      else c

  unfoldable pub take_matchings : ChunkMatch → List Matching → ChunkMatch
  take_matchings c [] = c
  take_matchings c (m ∷ ms) = take_matchings (take_matching c m.distance m.geometry) ms

  abbrev pub no_match : ChunkMatch
  no_match = record { segments = []; distance_meters = fl.of_nat 0 }

  -- One round of the loop of `matchTrip` over the settled chunks.
  abbrev first_failure : Option Failure → Failure → Failure
  first_failure none e = e
  first_failure (some f) e = f

  unfoldable pub take_chunk : TripMatch → Settled (List Matching) → TripMatch
  take_chunk t (fulfilled matchings) =
      let c = take_matchings no_match matchings in
      record t {
        segments = t.segments ++ c.segments;
        distance_meters = fl.add t.distance_meters c.distance_meters;
      }
  take_chunk t (rejected e) = record t { failure = some (first_failure t.failure e) }

  unfoldable pub take_chunks : TripMatch → List (Settled (List Matching)) → TripMatch
  take_chunks t [] = t
  take_chunks t (r ∷ rs) = take_chunks (take_chunk t r) rs

  abbrev pub empty_match : TripMatch
  empty_match = record { segments = []; distance_meters = fl.of_nat 0; failure = none }

  -- Whether the trip is long enough to be matched.
  unfoldable pub is_long : List (PositionRow Num) → Bool
  is_long trip = fl.leb (fl.of_nat min_trip_distance_meters) (trip_distance_meters fl trip)

  -- The service answers a request, or the request fails; `iso` writes a time in seconds as text, and
  -- is `none` where `toISOString` throws.
  module _ (service : Request → Settled (List Matching)) (iso : ℕ → Option Text)
      (token : Text) where
    unfoldable pub match_trip : List (PositionRow Num) → Settled TripMatch
    match_trip trip = do
      let t =
          take_chunks empty_match
            (map (λ chunk. service (request_for token chunk)) (chunk_positions trip))
      stitched ← checked (stitch_segments fl t.segments)
      fulfilled (record t { segments = stitched })

    unfoldable pub match_trips : List (List (PositionRow Num)) → Settled (List TripMatch)
    match_trips [] = fulfilled []
    match_trips (trip ∷ trips) = do m ← match_trip trip; ms ← match_trips trips; fulfilled (m ∷ ms)

    abbrev timed : TripMatch → Text → Text → RouteTrip
    timed m first last = record {
      segments = m.segments;
      distance_meters = m.distance_meters;
      first_movement = first;
      last_movement = last;
    }

    -- The trip that a match with segments gives.
    unfoldable pub route_trip : List (PositionRow Num) → TripMatch → Settled RouteTrip
    route_trip trip m = do
      start ← checked (trip_movement_start fl trip)
      first_movement ← written (iso start)
      last ← checked (last? trip)
      last_movement ← written (iso last.device_timestamp)
      fulfilled (timed m first_movement last_movement)

    abbrev is_empty : List (List (Position Num)) → Bool
    is_empty [] = true
    is_empty (_ ∷ _) = false

    -- The loop over the matches and their trips.
    unfoldable pub matched_trips :
        List (List (PositionRow Num)) → List TripMatch → Settled (List RouteTrip)
    matched_trips [] ms = fulfilled []
    matched_trips (trip ∷ trips) [] = fulfilled []
    matched_trips (trip ∷ trips) (m ∷ ms) =
        let skipped = matched_trips trips ms in
        let taken : Settled (List RouteTrip) = do
          t ← route_trip trip m
          ts ← matched_trips trips ms
          fulfilled (t ∷ ts)
        in if is_empty m.segments then skipped else taken

    abbrev pub find_failure : List TripMatch → Option Failure
    find_failure [] = none
    find_failure (m ∷ ms) = elim m.failure [ some e ↦ some e | none ↦ find_failure ms ]

    unfoldable pub total_distance : Num → List RouteTrip → Num
    total_distance total [] = total
    total_distance total (t ∷ ts) = total_distance (fl.add total t.distance_meters) ts

    abbrev pub final_trip : RouteTrip → List RouteTrip → RouteTrip
    final_trip t [] = t
    final_trip t (u ∷ us) = final_trip u us

    unfoldable pub summarise : RouteTrip → List RouteTrip → RouteSummary
    summarise t ts = record {
      distance_meters = total_distance (fl.of_nat 0) (t ∷ ts);
      first_movement = t.first_movement;
      last_movement = (final_trip t ts).last_movement;
    }

    unmatched : Option Failure → Settled (Option VehicleRoute)
    unmatched none = fulfilled none
    unmatched (some e) = rejected e

    unfoldable pub build_route : List TripMatch → List RouteTrip → Settled (Option VehicleRoute)
    unfolding unmatched
    build_route matches [] = unmatched (find_failure matches)
    build_route matches (t ∷ ts) =
        fulfilled (some (record { trips = t ∷ ts; summary = summarise t ts }))

    unfoldable pub route_of_trips : List (List (PositionRow Num)) → Settled (Option VehicleRoute)
    route_of_trips [] = fulfilled none
    route_of_trips (trip ∷ trips) = do
      matches ← match_trips (trip ∷ trips)
      matched ← matched_trips (trip ∷ trips) matches
      build_route matches matched

    -- `fetchVehicleRoute` after the positions have come, sorted by time.
    unfoldable pub route_of_sorted : List (PositionRow Num) → Settled (Option VehicleRoute)
    route_of_sorted [] = fulfilled none
    route_of_sorted (_ ∷ []) = fulfilled none
    route_of_sorted (p ∷ q ∷ ps) = route_of_trips (filter is_long (split_into_trips fl p (q ∷ ps)))

    -- `fetchVehicleRoute`, with the answer of `getPositions`.
    unfoldable pub fetch_vehicle_route :
        Settled (List (PositionRow Num)) → Settled (Option VehicleRoute)
    fetch_vehicle_route positions = do
      rows ← positions
      route_of_sorted (sort_by (λ (p : PositionRow Num). p.device_timestamp) rows)
