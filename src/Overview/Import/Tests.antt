-- ===== src/Overview/Import/Tests.antt =====
-- The theorem about the import dialog at a concrete file.
use gps_connector.Prelude.{
  ℕ, ℤ, ◌≡◌, ◌≢◌, ◌++◌, refl, codes, Text, List, [], ◌∷◌, map, Option, some, none, Bool, All,
  Distinct, trim, is_space, has, text_eq,
}
use gps_connector.Client.{DeviceMetadata}
use gps_connector.Imei.{strip_bom, is_fifteen_digits, is_digit}
use gps_connector.Metadata.{
  split_crlf, split_line, split_cells, clean_cell, detect_separator, index_of, rows_from, row_step,
  row_to_metadata, parse_metadata_csv, cell_at,
}
use gps_connector.Metadata.Rows.{IsKnown}
use gps_connector.Overview.Import.{
  Dialog, PatchInput, initial, handle_submit, handle_open_change, file_read, updatable,
}
use gps_connector.Overview.Import.Steps.{
  Machine, first, with_dialog, press_update, start, step, read, handle, input_imei, Reach-sends,
}

abbrev no_number : Text → Option ℕ
no_number s = none

abbrev no_date : Text → Option ℤ
no_date s = none

abbrev as_is : Text → Text
as_is s = s

abbrev file : Text
file = codes "imei" ++ 0x0a ∷ codes "490154203237518"

abbrev known : List Text
known = codes "490154203237518" ∷ []

abbrev staged : Dialog ℕ
staged = handle no_number no_date as_is known (read (codes "a.csv") (some file)) initial

abbrev no_data : DeviceMetadata ℕ ℤ
no_data = record {
  plate = none;
  vehicle_id = none;
  make = none;
  model = none;
  vehicle_type = none;
  fuel_type = none;
  fuel_usage = none;
  capacity = none;
  cost = none;
  leasing_end_date = none;
  associated_location = none;
}

abbrev one_row : List (PatchInput ℕ)
one_row = record { imei = codes "490154203237518"; metadata = no_data } ∷ []

sends_one : (handle_submit staged).1 ≡ some one_row
unfolding handle_submit updatable handle file_read parse_metadata_csv split_crlf strip_bom rows_from
    row_step split_line split_cells clean_cell detect_separator index_of is_fifteen_digits is_digit
    trim is_space has text_eq row_to_metadata cell_at
sends_one = refl

abbrev staged_first : Machine no_number no_date as_is known
staged_first =
    with_dialog no_number no_date as_is known staged (first no_number no_date as_is known)

Reach-sends_example :
    let after = press_update no_number no_date as_is known staged_first in
    (one_row ≢ [])
    × All (IsKnown known) (map input_imei one_row)
    × Distinct (map input_imei one_row)
    × (staged_first.in_flight ≡ [])
    × (after.in_flight ≡ one_row ∷ [])
    × ((next : Bool) → handle_open_change next after.dialog ≡ after.dialog)
Reach-sends_example =
    Reach-sends no_number no_date as_is known staged_first one_row
      (step (first no_number no_date as_is known) (read (codes "a.csv") (some file)) start)
      sends_one
