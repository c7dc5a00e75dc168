-- ===== src/Routes/Tests.antt =====
-- The theorems about vehicle-routes.ts on a line, where a coordinate is a whole number.
use gps_connector.Prelude.{
  if◌then◌else◌, ltb, ℕ, ◌+◌, ◌-◌, ◌*◌, ◌≡◌, codes, Text, List, [], ◌∷◌, none, some, Option, leb,
  arith,
}
use gps_connector.Promise.{Settled, fulfilled}
use gps_connector.Client.{PositionRow}
use gps_connector.Geo.{Floats}
use gps_connector.Routes.{chunk_positions, split_into_trips}
use gps_connector.Routes.Chunks.{all_edges, edges, chunk_positions-edges}
use gps_connector.Routes.Trips.{tails, thin, split_into_trips-thin}
use gps_connector.Routes.Links.{Linked, split_into_trips-Linked}
use gps_connector.Routes.Stitch.{Position, stitch_segments}
use gps_connector.Routes.Stitch.Joined.{Stitched, flat, stitch_segments-Stitched}
use gps_connector.Routes.Fetch.{Request, Matching, fetch_vehicle_route}
use gps_connector.Routes.Fetch.Safe.{IsRouteResult, fetch_vehicle_route-result}

abbrev whole : Floats
whole = record {
  Num = ℕ;
  of_nat = λ n. n;
  add = λ a b. a + b;
  sub = λ a b. (a - b) + (b - a);
  mul = λ a b. a * b;
  div = λ a b. a;
  pi = 1;
  sin = λ a. a;
  cos = λ a. 1;
  asin = λ a. a;
  sqrt = λ a. a;
  leb = leb;
}

abbrev row_at : ℕ → ℕ → PositionRow ℕ
row_at time longitude = record {
  imei = codes "1";
  device_timestamp = time;
  latitude = 55;
  longitude = longitude;
  ignition = none;
  moving = none;
  plate = none;
}

-- A drive, a stop of 400 seconds and a drive.
abbrev day : List (PositionRow ℕ)
day = row_at 10 1 ∷ row_at 20 2 ∷ row_at 420 2 ∷ row_at 430 3 ∷ []

chunk_positions-edges_example : all_edges (chunk_positions day) ≡ edges day
chunk_positions-edges_example = chunk_positions-edges day

split_into_trips-thin_example :
    tails (split_into_trips whole (row_at 0 0) day) ≡ thin whole (row_at 0 0) day
split_into_trips-thin_example = split_into_trips-thin whole (row_at 0 0) day

split_into_trips-Linked_example : Linked whole (split_into_trips whole (row_at 0 0) day)
split_into_trips-Linked_example = split_into_trips-Linked whole (row_at 0 0) day

abbrev segments : List (List (Position ℕ))
segments = ((1, 1) ∷ (2, 2) ∷ []) ∷ ((2, 2) ∷ (5, 5) ∷ []) ∷ []

stitch_segments-Stitched_example : Stitched whole (flat segments) (stitch_segments whole segments)
stitch_segments-Stitched_example =
    stitch_segments-Stitched whole segments (omega arith, (omega arith, tt))

abbrev straight : Request whole → Settled (List (Matching whole))
straight request = fulfilled []

-- A time is written up to a last one.
abbrev short_iso : ℕ → Option Text
short_iso t = if ltb t 400 then some [] else none

fetch_vehicle_route-result_example :
    IsRouteResult whole straight short_iso
      (codes "token")
      day
      (fetch_vehicle_route whole straight short_iso (codes "token") (fulfilled day))
fetch_vehicle_route-result_example =
    fetch_vehicle_route-result whole straight short_iso (codes "token") day
