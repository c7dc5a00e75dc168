-- ===== src/Overview/Import.antt =====
-- The dialog that imports vehicle data: frontend/app/overview/import-metadata-dialog.tsx. A handler has
-- two parts: up to the call, and once that has settled.
mod Tests
pub mod Flight
pub mod Steps
pub mod View
use gps_connector.Prelude.{
  ℕ, ℤ, Text, codes, Bool, true, false, ◌&&◌, ◌||◌, not, List, [], ◌∷◌, ◌++◌, Option, none, some,
  ◌==◌, if◌then◌else◌, length, filter, has, decimal,
}
use gps_connector.Promise.{Settled, fulfilled, rejected}
use gps_connector.Client.{DeviceMetadata, PatchStatus, PatchResult, updated}
use gps_connector.Metadata.{MetadataRow, ParsedMetadata, ok, unknown, invalid, parse_metadata_csv}

pub record PatchInput (Num : Type 0) : Type 0 where
  pub imei : Text
  pub metadata : DeviceMetadata Num ℤ

pub record Staged (Num : Type 0) : Type 0 where
  pub file_name : Text
  pub rows : List (MetadataRow Num)

pub record Dialog (Num : Type 0) : Type 0 where
  pub open_ : Bool
  pub staged : Option (Staged Num)
  pub read_error : Option Text
  pub submit_error : Option Text
  pub submitting : Bool

abbrev lacks_imei : List Text → Bool
lacks_imei columns = not (length columns == 0) && not (has (codes "imei") columns)

-- `result.status !== "updated"`
abbrev pub is_failed : PatchResult → Bool
is_failed result = elim result.status [ updated ↦ false | _ ↦ true ]

abbrev failures_text : ℕ → ℕ → Text
failures_text failed sent =
    decimal failed ++ codes " of " ++ decimal sent ++ codes " rows could not be updated"

module _ {Num : Type 0} where
  abbrev pub initial : Dialog Num
  initial = record {
    open_ = false;
    staged = none;
    read_error = none;
    submit_error = none;
    submitting = false;
  }

  abbrev pub rows_of : Option (Staged Num) → List (MetadataRow Num)
  rows_of none = []
  rows_of (some staged) = staged.rows

  -- `updatable`, as it is sent.
  unfoldable pub updatable : List (MetadataRow Num) → List (PatchInput Num)
  updatable [] = []
  updatable (ok imei metadata ∷ rows) = record { imei = imei; metadata = metadata } ∷ updatable rows
  updatable (unknown _ ∷ rows) = updatable rows
  updatable (invalid _ _ ∷ rows) = updatable rows

  unfoldable pub reset : Dialog Num → Dialog Num
  reset d = record d { staged = none; read_error = none; submit_error = none }

  abbrev set_open : Bool → Dialog Num → Dialog Num
  set_open next d = record d { open_ = next }

  abbrev opened : Bool → Dialog Num → Dialog Num
  opened true d = set_open true d
  opened false d = set_open false (reset d)

  unfoldable pub handle_open_change : Bool → Dialog Num → Dialog Num
  handle_open_change next d = if d.submitting then d else opened next d

  -- `handleFile`, before the file is read.
  unfoldable pub handle_file : Dialog Num → Dialog Num
  handle_file d = record d { read_error = none }

  abbrev with_read_error : Text → Dialog Num → Dialog Num
  with_read_error e d = record d { read_error = some e }

  stage_rows : Text → List (MetadataRow Num) → Dialog Num → Dialog Num
  stage_rows name [] d = with_read_error (codes "No rows found in file") d
  stage_rows name (row ∷ rows) d = record d {
    staged = some (record { file_name = name; rows = row ∷ rows });
  }

  -- The rest of `readFile`, with what the file parses to (`none`: reading it threw).
  unfoldable pub file_read : Text → Option (ParsedMetadata Num) → Dialog Num → Dialog Num
  unfolding stage_rows
  file_read name none d = with_read_error (codes "Failed to read file") d
  file_read name (some parsed) d =
      if lacks_imei parsed.columns
      then with_read_error (codes "The file has no imei column") d
      else stage_rows name parsed.rows d

  abbrev submitting_now : Dialog Num → Dialog Num
  submitting_now d = record d { submitting = true; submit_error = none }

  pub submit_inputs :
      List (PatchInput Num) → Dialog Num → Dialog Num × Option (List (PatchInput Num))
  submit_inputs [] d = (d, none)
  submit_inputs (input ∷ inputs) d =
      if d.submitting then (d, none) else (submitting_now d, some (input ∷ inputs))

  -- `handleSubmit` up to the call of `patchDeviceMetadataBulk`: what it is called with, if it is.
  unfoldable pub handle_submit : Dialog Num → Dialog Num × Option (List (PatchInput Num))
  unfolding submit_inputs
  handle_submit d = submit_inputs (updatable (rows_of d.staged)) d

  abbrev refused : Text → Dialog Num → Dialog Num
  refused e d = record d { submit_error = some e; submitting = false }

  abbrev imported : Dialog Num → Dialog Num
  imported d = record (reset d) { open_ = false; submitting = false }

  -- `handleSubmit` once the call for so many rows has settled: whether `onImported` is called.
  unfoldable pub submit_settled : ℕ → Settled (List PatchResult) → Dialog Num → Dialog Num × Bool
  submit_settled sent (rejected _) d = (refused (codes "Could not import metadata") d, false)
  submit_settled sent (fulfilled results) d =
      let failed = length (filter is_failed results) in
      if failed == 0 then (imported d, true) else (refused (failures_text failed sent) d, false)
