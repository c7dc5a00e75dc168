-- ===== src/MapView/Drawing.antt =====
-- What the map draws of the route: the last effect of frontend/components/map-view.tsx, with `fitRoute` and
-- the part of `handleTripChange` that moves the camera. The map is what its source holds; a flight of
-- the camera is the segments that it is to show.
use gps_connector.Prelude.{
  ◌≡◌, refl, ap, sym, ◌∙◌, ℕ, List, [], ◌∷◌, ◌++◌, Option, none, some, get_elem?, append-nil, ◌≢◌,
}
use gps_connector.Geo.{Floats}
use gps_connector.Routes.Stitch.{Position, last?, first?}
use gps_connector.Routes.Fetch.{RouteTrip, VehicleRoute}
use gps_connector.MapView.{RouteStatus, loaded, drawn_trips, Feature, route_to_features}

module _ (fl : Floats) where
  open fl use {Num}

  abbrev pub Segments : Type 0
  Segments = List (List (Position Num))

  -- `trips.flatMap((trip) => trip.segments)`
  unfoldable pub segments_of : List (RouteTrip fl) → Segments
  segments_of [] = []
  segments_of (t ∷ ts) = t.segments ++ segments_of ts

  -- The source of the map, where `none` has a start without coordinates, and `drawnSegmentsRef.current`.
  pub record Canvas : Type 0 where
    pub features : Option (List (Feature fl))
    pub segments : Option Segments

  abbrev start_of : List (Position Num) → Option (Position Num)
  start_of segment = first? segment

  abbrev end_of : Segments → Option (Position Num)
  end_of [] = none
  end_of (s ∷ []) = last? s
  end_of (s ∷ t ∷ ss) = end_of (t ∷ ss)

  abbrev pub cleared_canvas : Canvas
  cleared_canvas = record { features = some []; segments = none }

  -- Without a position in the first segment the start has no coordinates.
  abbrev features_of : Segments → Option (Position Num) → Option (List (Feature fl))
  features_of segments none = none
  features_of segments (some start) = some (route_to_features fl segments start (end_of segments))

  abbrev draw_segments : Segments → Canvas → Canvas
  draw_segments [] c = c
  draw_segments (s ∷ ss) c = record {
    features = features_of (s ∷ ss) (start_of s);
    segments = some (s ∷ ss);
  }

  -- The effect, which runs when the route or the selected trip changes.
  unfoldable pub draw_effect : RouteStatus fl → Option ℕ → Canvas → Canvas
  draw_effect (loaded route) selected c =
      draw_segments (segments_of (drawn_trips fl selected route.trips)) c
  draw_effect _ selected c = c

  -- `fitRoute`, and `fitToSegments`, which does nothing without segments.
  abbrev fit_to_segments : Segments → Option Segments
  fit_to_segments [] = none
  fit_to_segments (s ∷ ss) = some (s ∷ ss)

  unfoldable pub fit_route : Canvas → Option Segments
  fit_route c = elim c.segments [ none ↦ none | some segments ↦ fit_to_segments segments ]

  fit_to_trip : Option (RouteTrip fl) → Option Segments
  fit_to_trip none = none
  fit_to_trip (some t) = fit_to_segments t.segments

  -- The flight of `handleTripChange`, given the status of the route.
  unfoldable pub trip_flight : RouteStatus fl → Option ℕ → Option Segments
  unfolding fit_to_trip
  trip_flight (loaded route) (some index) = fit_to_trip (get_elem? route.trips index)
  trip_flight _ _ = none

  drawn_segments :
      (segments drawn : Segments) (c : Canvas)
      → segments ≢ []
      → drawn ≡ segments
      → (draw_segments drawn c).segments ≡ some segments
  drawn_segments [] drawn c h e = absurd (h refl)
  drawn_segments (s ∷ ss) drawn c h e = rw e refl

  fit_drawn :
      (segments drawn : Segments) (c : Canvas)
      → segments ≢ []
      → drawn ≡ segments
      → fit_route (draw_segments drawn c) ≡ fit_to_segments segments
  unfolding fit_route
  fit_drawn [] drawn c h e = absurd (h refl)
  fit_drawn (s ∷ ss) drawn c h e = rw e refl

  -- A trip of the shown route that is chosen and has segments is what the map draws then, in place of whatever
  -- was drawn before, and both the camera's flight at the choice and the button that fits the map to the
  -- route afterwards go to exactly that trip's segments.
  pub trip_flight-fit_route :
      (route : VehicleRoute fl) (index : ℕ) (t : RouteTrip fl) (c : Canvas)
      → get_elem? route.trips index ≡ some t
      → t.segments ≢ []
      → ((draw_effect (loaded route) (some index) c).segments ≡ some t.segments)
        × (fit_route (draw_effect (loaded route) (some index) c)
            ≡ trip_flight (loaded route) (some index))
  unfolding draw_effect trip_flight drawn_trips segments_of
  trip_flight-fit_route route index t c e h =
      let one : drawn_trips fl (some index) route.trips ≡ t ∷ [] = rw (e, drawn_trips) refl in
      let all = ap segments_of one ∙ append-nil t.segments in
      let drawn = segments_of (drawn_trips fl (some index) route.trips) in
      let flight : trip_flight (loaded route) (some index) ≡ fit_to_segments t.segments =
        rw (e, fit_to_trip) refl in
      (drawn_segments t.segments drawn c h all, fit_drawn t.segments drawn c h all ∙ sym flight)
