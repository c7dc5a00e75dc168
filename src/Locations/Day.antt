-- ===== src/Locations/Day.antt =====
-- The vehicles of a past day.
use gps_connector.Prelude.{
  ℕ, ◌≤◌, ◌≡◌, Text, List, [], ◌∷◌, Option, none, some, arith, ltb, if◌then◌else◌, All, IsIn,
}
use gps_connector.Promise.{Failure, Settled, fulfilled, rejected, range_error, ◌>>=◌}
use gps_connector.Client.{PositionRow}
use gps_connector.Locations.{VehicleLocation, latest_from, moved_to}

module _ {Num : Type 0} where
  abbrev pub NotAfter : ℕ → PositionRow Num → Type 0
  NotAfter time row = row.device_timestamp ≤ time

  latest_ge_start :
      (p : PositionRow Num) (ps : List (PositionRow Num))
      → p.device_timestamp ≤ (latest_from p ps).device_timestamp
  unfolding latest_from
  latest_ge_start p [] = omega arith
  latest_ge_start p (q ∷ ps) =
      ground
        (arith, latest_ge_start (if ltb p.device_timestamp q.device_timestamp then q else p) ps)

  others_ge_start :
      (p : PositionRow Num) (ps : List (PositionRow Num))
      → All (NotAfter (latest_from p ps).device_timestamp) ps
  unfolding latest_from
  others_ge_start p [] = tt
  others_ge_start p (q ∷ ps) =
      let r = if ltb p.device_timestamp q.device_timestamp then q else p in
      (ground (arith, latest_ge_start r ps), others_ge_start r ps)

  -- A vehicle is shown at a position of the day than which no other is later.
  pub latest_from-NotAfter :
      (p : PositionRow Num) (ps : List (PositionRow Num))
      → All (NotAfter (latest_from p ps).device_timestamp) (p ∷ ps)
  latest_from-NotAfter p ps = (latest_ge_start p ps, others_ge_start p ps)

  module _ (iso : ℕ → Option Text)
      (positions : VehicleLocation Num → Settled (List (PositionRow Num))) where
    -- The vehicle at a position of its day than which none is later, with the time of that.
    pub data IsAt (v : VehicleLocation Num) (found : VehicleLocation Num) : Type 0 where
      at_latest :
          (p : PositionRow Num) (ps : List (PositionRow Num)) (last : PositionRow Num) (time : Text)
          → positions v ≡ fulfilled (p ∷ ps)
          → IsIn last (p ∷ ps)
          → All (NotAfter last.device_timestamp) (p ∷ ps)
          → iso last.device_timestamp ≡ some time
          → found ≡ moved_to v last time
          → IsAt v found

    -- The request for the vehicle was rejected with this, or the time of a position than which none is later
    -- cannot be written.
    pub data FailsWith (v : VehicleLocation Num) (e : Failure) : Type 0 where
      refused : positions v ≡ rejected e → FailsWith v e
      unwritten :
          (rows : List (PositionRow Num)) (p : PositionRow Num)
          → positions v ≡ fulfilled rows
          → IsIn p rows
          → All (NotAfter p.device_timestamp) rows
          → iso p.device_timestamp ≡ none
          → e ≡ range_error
          → FailsWith v e

    -- The vehicles, those of them that are found, and the first failure.
    pub data IsDay
        : List (VehicleLocation Num) → List (VehicleLocation Num) → Option Failure → Type 0 where
      nobody : IsDay [] [] none
      without :
          (v : VehicleLocation Num) (vs found : List (VehicleLocation Num)) (o : Option Failure)
          → positions v ≡ fulfilled []
          → IsDay vs found o
          → IsDay (v ∷ vs) found o
      fails :
          (v : VehicleLocation Num) (vs found : List (VehicleLocation Num)) (o : Option Failure)
          (e : Failure)
          → FailsWith v e
          → IsDay vs found o
          → IsDay (v ∷ vs) found (some e)
      finds :
          (v : VehicleLocation Num) (vs found : List (VehicleLocation Num)) (o : Option Failure)
          (w : VehicleLocation Num)
          → IsAt v w
          → IsDay vs found o
          → IsDay (v ∷ vs) (w ∷ found) o

    -- The vehicles that are found, if there are some; none without a failure; or the first failure, with
    -- no vehicle found.
    abbrev pub IsDayResult :
        List (VehicleLocation Num) → Settled (List (VehicleLocation Num)) → Type 0
    IsDayResult vs (fulfilled []) = IsDay vs [] none
    IsDayResult vs (fulfilled (w ∷ ws)) = (o : Option Failure) × IsDay vs (w ∷ ws) o
    IsDayResult vs (rejected e) = IsDay vs [] (some e)
