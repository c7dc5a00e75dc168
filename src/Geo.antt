-- ===== src/Geo.antt =====
-- Distances: `haversineMeters` and `toRadians` of frontend/lib/vehicle-routes.ts.
use gps_connector.Prelude.{ℕ, Bool}
use gps_connector.Client.{PositionRow}

-- JavaScript's numbers with fractions, and the functions of `Math` that the code calls.
pub record Floats : Type 1 where
  pub Num : Type 0
  pub of_nat : ℕ → Num
  pub add : Num → Num → Num
  pub sub : Num → Num → Num
  pub mul : Num → Num → Num
  pub div : Num → Num → Num
  pub pi : Num
  pub sin : Num → Num
  pub cos : Num → Num
  pub asin : Num → Num
  pub sqrt : Num → Num
  pub leb : Num → Num → Bool

pub record Coordinates (Num : Type 0) : Type 0 where
  pub latitude : Num
  pub longitude : Num

abbrev pub earth_radius_meters : ℕ
earth_radius_meters = 6_371_000

module _ (fl : Floats) where
  open fl use {Num, of_nat, add, sub, mul, div, pi, sin, cos, asin, sqrt}

  unfoldable pub to_radians : Num → Num
  to_radians degrees = div (mul degrees pi) (of_nat 180)

  -- `x ** 2`
  unfoldable pub squared : Num → Num
  squared x = mul x x

  unfoldable pub haversine_meters : Coordinates Num → Coordinates Num → Num
  haversine_meters a b =
      let d_lat = to_radians (sub b.latitude a.latitude) in
      let d_lon = to_radians (sub b.longitude a.longitude) in
      let h = add (squared (sin (div d_lat (of_nat 2)))) (
        mul (mul (cos (to_radians a.latitude)) (cos (to_radians b.latitude)))
          (squared (sin (div d_lon (of_nat 2))))) in
      mul (mul (of_nat 2) (of_nat earth_radius_meters)) (asin (sqrt h))

abbrev pub coordinates_of : {Num : Type 0} → PositionRow Num → Coordinates Num
coordinates_of p = record { latitude = p.latitude; longitude = p.longitude }
