-- ===== src/Routes/Fetch/Matched.antt =====
-- How the matching of the trips settles, and where a failure that it keeps comes from.
use gps_connector.Prelude.{◌≡◌, refl, Option, none, some, List, [], ◌∷◌, map, Text, ℕ, All}
use gps_connector.Client.{PositionRow}
use gps_connector.Geo.{Floats}
use gps_connector.Promise.{Failure, Settled, fulfilled, rejected}
use gps_connector.Routes.{chunk_positions}
use gps_connector.Routes.Stitch.Joined.{IsLine, stitch_segments-Stitched}
use gps_connector.Routes.Fetch.Lines.{take_chunks-lines}
use gps_connector.Routes.Fetch.{
  Matching, Request, TripMatch, request_for, take_chunk, take_chunks, empty_match, match_trip,
  match_trips, first_failure,
}

module _ (fl : Floats) (service : Request fl → Settled (List (Matching fl))) (iso : ℕ → Option Text)
    (token : Text) where
  open fl use {Num}

  -- A request that the service rejected in this way.
  abbrev pub IsRejection : Failure → Type 0
  IsRejection e = (request : Request fl) × (service request ≡ rejected e)

  abbrev pub HasOrigin : Option Failure → Type 0
  HasOrigin none = Unit
  HasOrigin (some e) = IsRejection e

  answer_to : List (PositionRow Num) → Settled (List (Matching fl))
  answer_to chunk = service (request_for fl token chunk)

  chunk-HasOrigin :
      (t : TripMatch fl) (request : Request fl) (r : Settled (List (Matching fl)))
      → service request ≡ r
      → HasOrigin t.failure
      → HasOrigin (take_chunk fl t r).failure
  unfolding take_chunk
  chunk-HasOrigin t request (fulfilled ms) e h = h
  chunk-HasOrigin t request (rejected f) e h = by_failure t.failure h
    where
      by_failure : (o : Option Failure) → HasOrigin o → IsRejection (first_failure fl o f)
      by_failure none h = (request, e)
      by_failure (some g) h = h

  chunks-HasOrigin :
      (t : TripMatch fl) (chunks : List (List (PositionRow Num)))
      → HasOrigin t.failure
      → HasOrigin
          (take_chunks fl t (map (λ chunk. service (request_for fl token chunk)) chunks)).failure
  unfolding take_chunks
  chunks-HasOrigin t [] h = h
  chunks-HasOrigin t (c ∷ cs) h =
      chunks-HasOrigin (take_chunk fl t (service (request_for fl token c))) cs
        (chunk-HasOrigin t (request_for fl token c) _ refl h)

  -- Matching a trip succeeds, whatever the service does.
  record IsMatched (trip : List (PositionRow Num)) : Type 0 where
    result : TripMatch fl
    found : match_trip fl service iso token trip ≡ fulfilled result
    lines : All IsLine result.segments
    origin : HasOrigin result.failure

  match_trip-IsMatched : (trip : List (PositionRow Num)) → IsMatched trip
  unfolding match_trip
  match_trip-IsMatched trip =
      let t =
        take_chunks fl (empty_match fl)
          (map (λ chunk. service (request_for fl token chunk)) (chunk_positions trip)) in
      let lines =
        take_chunks-lines fl (empty_match fl)
          (map (λ chunk. service (request_for fl token chunk)) (chunk_positions trip)) tt in
      let st = stitch_segments-Stitched fl t.segments lines in
      record {
        result = record t { segments = st.stitched };
        found = rw st.result;
        lines = st.lines;
        origin = chunks-HasOrigin (empty_match fl) (chunk_positions trip) tt;
      }

  -- A match whose segments are lines, and whose failure, if any, comes from the service.
  pub record IsSound (m : TripMatch fl) : Type 0 where
    pub lines : All IsLine m.segments
    pub origin : HasOrigin m.failure

  pub match_trips-IsSound :
      (trips : List (List (PositionRow Num)))
      → (ms : List (TripMatch fl)) × (match_trips fl service iso token trips ≡ fulfilled ms)
        × All IsSound ms
  unfolding match_trips
  match_trips-IsSound [] = ([], refl, tt)
  match_trips-IsSound (trip ∷ trips) =
      let m = match_trip-IsMatched trip in
      let (ms, found, sound) = match_trips-IsSound trips in
      (m.result ∷ ms, rw (m.found, found), (record { lines = m.lines; origin = m.origin }, sound))
