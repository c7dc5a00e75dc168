-- ===== src/Routes/Fetch/Safe.antt =====
-- What a route that is fetched has, and what its promise is rejected with.
use gps_connector.Prelude.{
  ℕ, ◌≡◌, ◌⊎◌, refl, inl, inr, false, Option, none, some, List, [], ◌∷◌, Text, All, IsIn,
  Bool-cases,
}
use gps_connector.Prelude.Sort.{sort_by}
use gps_connector.Client.{PositionRow}
use gps_connector.Geo.{Floats}
use gps_connector.Promise.{Failure, Settled, fulfilled, rejected, range_error, ◌>>=◌}
use gps_connector.Routes.{split_into_trips, trip_movement_start}
use gps_connector.Routes.Stitch.{Position, last?}
use gps_connector.Routes.Stitch.Joined.{IsLine}
use gps_connector.Routes.Fetch.Lines.{IsNonEmpty, All-filter, split_into_trips-IsNonEmpty}
use gps_connector.Routes.Fetch.Given.{
  each_member, sort_by-All, last?-All, split_into_trips-All, movement_start-of,
}
use gps_connector.Routes.Fetch.Matched.{HasOrigin, IsRejection, IsSound, match_trips-IsSound}
use gps_connector.Routes.Fetch.{
  Matching, Request, TripMatch, RouteTrip, VehicleRoute, is_long, route_trip, matched_trips,
  find_failure, build_route, route_of_trips, route_of_sorted, fetch_vehicle_route, timed, is_empty,
  unmatched,
}

last?-found : {A : Type 0} (xs : List A) → IsNonEmpty xs → (x : A) × (last? xs ≡ some x)
last?-found [] h = absurd h
last?-found (x ∷ []) h = (x, refl)
last?-found (x ∷ y ∷ xs) h = last?-found (y ∷ xs) tt

option-cases : {A : Type 0} (o : Option A) → ((a : A) × (o ≡ some a)) ⊎ (o ≡ none)
option-cases none = inr refl
option-cases (some a) = inl (a, refl)

module _ (fl : Floats) (service : Request fl → Settled (List (Matching fl))) (iso : ℕ → Option Text)
    (token : Text) where
  open fl use {Num}

  start-found :
      (trip : List (PositionRow Num))
      → IsNonEmpty trip
      → (t : ℕ) × (trip_movement_start fl trip ≡ some t)
  unfolding trip_movement_start
  start-found [] h = absurd h
  start-found (p ∷ []) h = (_, refl)
  start-found (p ∷ q ∷ ps) h = (_, refl)

  -- What drawing needs: there is a first and a last point.
  pub record IsDrawable (t : RouteTrip fl) : Type 0 where
    pub has_segments : IsNonEmpty t.segments
    pub lines : All IsLine t.segments

  module _ (rows : List (PositionRow Num)) where
    -- A RangeError, for the time of one of these positions.
    abbrev pub IsUnwritten : Failure → Type 0
    IsUnwritten e =
        (e ≡ range_error) × (p : PositionRow Num) × IsIn p rows × (iso p.device_timestamp ≡ none)

    abbrev AreGiven : List (PositionRow Num) → Type 0
    AreGiven = All (λ p. IsIn p rows)

    data IsMade (m : TripMatch fl) : Settled (RouteTrip fl) → Type 0 where
      made : (t : RouteTrip fl) → t.segments ≡ m.segments → IsMade m (fulfilled t)
      unwritten : (e : Failure) → IsUnwritten e → IsMade m (rejected e)

    route_trip-IsMade :
        (trip : List (PositionRow Num)) (m : TripMatch fl)
        → IsNonEmpty trip
        → AreGiven trip
        → IsMade m (route_trip fl service iso token trip m)
    unfolding route_trip
    route_trip-IsMade trip m h k =
        let (start, e) = start-found trip h in
        let (last, f) = last?-found trip h in
        let (p, given, at) = movement_start-of fl (λ p. IsIn p rows) trip start k e in
        elim (option-cases (iso start)) [
          | inl (first, i) ↦ elim (option-cases (iso last.device_timestamp)) [
            | inl (final, j) ↦
                rw (e, i, f, j) (made (timed fl service iso token m first final) refl)
            | inr j ↦
                rw (e, i, f, j)
                  (unwritten range_error
                    (refl, last, last?-All (λ p. IsIn p rows) trip last k f, j))
          ]
          | inr i ↦ rw (e, i) (unwritten range_error (refl, p, given, rw at i))
        ]

    data AreDrawable : Settled (List (RouteTrip fl)) → Type 0 where
      drawable : (ts : List (RouteTrip fl)) → All IsDrawable ts → AreDrawable (fulfilled ts)
      out_of_range : (e : Failure) → IsUnwritten e → AreDrawable (rejected e)

    matched_trips-AreDrawable :
        (trips : List (List (PositionRow Num))) (ms : List (TripMatch fl))
        → All IsNonEmpty trips
        → All AreGiven trips
        → All (IsSound fl service iso token) ms
        → AreDrawable (matched_trips fl service iso token trips ms)
    unfolding matched_trips
    matched_trips-AreDrawable [] ms h g k = drawable [] tt
    matched_trips-AreDrawable (trip ∷ trips) [] h g k = drawable [] tt
    matched_trips-AreDrawable (trip ∷ trips) (m ∷ ms) (h, hs) (g, gs) (k, ks) =
        elim (Bool-cases (is_empty fl service iso token m.segments)) [
          | inl e ↦ rw e (matched_trips-AreDrawable trips ms hs gs ks)
          | inr e ↦ rw e (
              one_more e (route_trip fl service iso token trip m) (route_trip-IsMade trip m h g) _
                (matched_trips-AreDrawable trips ms hs gs ks))
        ]
      where
        not_empty :
            (ss : List (List (Position Num)))
            → is_empty fl service iso token ss ≡ false
            → IsNonEmpty ss
        not_empty [] e = cc
        not_empty (_ ∷ _) e = tt

        one_more :
            is_empty fl service iso token m.segments ≡ false
            → (r : Settled (RouteTrip fl)) → IsMade m r
            → (rs : Settled (List (RouteTrip fl))) → AreDrawable rs
            → AreDrawable (r >>= (λ t. rs >>= (λ ts. fulfilled (t ∷ ts))))
        one_more e (rejected _) (unwritten f u) rs d = out_of_range f u
        one_more e (fulfilled _) (made t same) (rejected _) (out_of_range f u) = out_of_range f u
        one_more e (fulfilled _) (made t same) (fulfilled _) (drawable ts ds) = drawable (t ∷ ts) (
          record { has_segments = rw same (not_empty m.segments e); lines = rw same k.lines },
          ds,
        )

    -- A failure of the service or of writing a time, no route, or a route that can be drawn.
    abbrev pub IsRouteResult : Settled (Option (VehicleRoute fl)) → Type 0
    IsRouteResult (rejected e) = IsRejection fl service iso token e ⊎ IsUnwritten e
    IsRouteResult (fulfilled none) = Unit
    IsRouteResult (fulfilled (some route)) = IsNonEmpty route.trips × All IsDrawable route.trips

    find_failure-origin :
        (ms : List (TripMatch fl))
        → All (IsSound fl service iso token) ms
        → HasOrigin fl service iso token (find_failure fl service iso token ms)
    find_failure-origin [] h = tt
    find_failure-origin (m ∷ ms) (h, hs) = by_failure m.failure h.origin (find_failure-origin ms hs)
      where
        by_failure :
            (o : Option Failure)
            → HasOrigin fl service iso token o
            → HasOrigin fl service iso token (find_failure fl service iso token ms)
            → HasOrigin fl service iso token
                (elim o [ some e ↦ some e | none ↦ find_failure fl service iso token ms ])
        by_failure none _ later = later
        by_failure (some e) k _ = k

    unmatched-result :
        (o : Option Failure)
        → HasOrigin fl service iso token o
        → IsRouteResult (unmatched fl service iso token o)
    unfolding unmatched
    unmatched-result none h = tt
    unmatched-result (some e) h = inl h

    build_route-result :
        (ms : List (TripMatch fl)) (made : Settled (List (RouteTrip fl)))
        → All (IsSound fl service iso token) ms
        → AreDrawable made
        → IsRouteResult (made >>= build_route fl service iso token ms)
    unfolding build_route
    build_route-result ms (rejected _) h (out_of_range e u) = inr u
    build_route-result ms (fulfilled _) h (drawable [] ds) =
        unmatched-result _ (find_failure-origin ms h)
    build_route-result ms (fulfilled _) h (drawable (t ∷ ts) ds) = (tt, ds)

    route_of_trips-result :
        (trips : List (List (PositionRow Num)))
        → All IsNonEmpty trips
        → All AreGiven trips
        → IsRouteResult (route_of_trips fl service iso token trips)
    unfolding route_of_trips
    route_of_trips-result [] h g = tt
    route_of_trips-result (trip ∷ trips) h g =
        let (ms, found, sound) = match_trips-IsSound fl service iso token (trip ∷ trips) in
        rw found
          (build_route-result ms _ sound (matched_trips-AreDrawable (trip ∷ trips) ms h g sound))

    route_of_sorted-result :
        (ps : List (PositionRow Num))
        → AreGiven ps
        → IsRouteResult (route_of_sorted fl service iso token ps)
    unfolding route_of_sorted
    route_of_sorted-result [] g = tt
    route_of_sorted-result (p ∷ []) g = tt
    route_of_sorted-result (p ∷ q ∷ ps) (g, gs) =
        let trips = split_into_trips fl p (q ∷ ps) in
        route_of_trips-result _
          (All-filter IsNonEmpty (is_long fl) trips (split_into_trips-IsNonEmpty fl p (q ∷ ps)))
          (All-filter AreGiven (is_long fl) trips
            (split_into_trips-All fl (λ p. IsIn p rows) p (q ∷ ps) g gs))

  -- Whatever the positions and the service's answers, the promise of a route is rejected only with what
  -- the service rejected one of the requests with, or with a RangeError where the time of one of the
  -- positions cannot be written, never by taking apart an empty list; and a route that it gives has a
  -- trip, every trip a segment, and every segment two points at least.
  pub fetch_vehicle_route-result :
      (rows : List (PositionRow Num))
      → IsRouteResult rows (fetch_vehicle_route fl service iso token (fulfilled rows))
  unfolding fetch_vehicle_route
  fetch_vehicle_route-result rows =
      let time : PositionRow Num → ℕ = λ p. p.device_timestamp in
      route_of_sorted-result rows (sort_by time rows)
        (sort_by-All (λ p. IsIn p rows) time rows (each_member rows))
