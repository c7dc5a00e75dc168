-- ===== src/Overview/Import/View.antt =====
-- What the dialog that imports vehicle data shows: the markup of
-- frontend/app/overview/import-metadata-dialog.tsx, as data.
pub mod Sent
use gps_connector.Prelude.{
  ℕ, ◌+◌, ◌-◌, ltb, ◌==◌, Text, String, codes, Bool, true, false, ◌&&◌, ◌||◌, not, List, [], ◌∷◌,
  ◌++◌, map, Option, none, some, if◌then◌else◌, length, take, decimal, join,
}
use gps_connector.Metadata.{MetadataRow, ok, unknown, invalid}
use gps_connector.Overview.Import.{PatchInput, Staged, Dialog, rows_of, updatable}

abbrev preview_limit : ℕ
preview_limit = 8

-- `remaining` may be negative in the source, which the test `remaining < 3` passes as 0 does.
unfoldable pub imeis_preview : List Text → Text
imeis_preview imeis =
    let remaining = length imeis - preview_limit in
    if ltb remaining 3
    then join (codes ", ") imeis
    else join (codes ", ") (take preview_limit imeis)
      ++ codes " (+ "
      ++ decimal remaining
      ++ codes " more)"

pub record Group : Type 0 where
  pub title : Text
  pub badge : ℕ
  pub description : Option Text

unfoldable pub group : String → List Text → Group
group title imeis = record {
  title = codes title;
  badge = length imeis;
  description = if ltb 0 (length imeis) then some (imeis_preview imeis) else none;
}

abbrev pub badges : List Group → ℕ
badges [] = 0
badges (g ∷ gs) = g.badge + badges gs

abbrev plural : ℕ → Text
plural n = if n == 1 then [] else codes "s"

-- The name and the number of rows of the file with the groups of its rows, or the field for a file.
pub data Upper : Type 0 where
  file_card : (file_name rows : Text) (groups : List Group) → Upper
  dropzone : (error : Option Text) → Upper

pub record Shown : Type 0 where
  pub upper : Upper
  pub alert : Option Text
  pub cancel_disabled : Bool
  pub update_disabled : Bool
  pub has_spinner : Bool
  pub update_label : Text

-- `submitError && …`
abbrev alert_of : Option Text → Option Text
alert_of (some (c ∷ error)) = some (c ∷ error)
alert_of _ = none

unfoldable pub update_label : ℕ → Text
update_label n = codes "Update " ++ decimal n ++ codes " device" ++ plural n

module _ {Num : Type 0} where
  -- The IMEIs of `unknown` and of `invalid`.
  unfoldable pub unknown_imeis : List (MetadataRow Num) → List Text
  unknown_imeis [] = []
  unknown_imeis (unknown imei ∷ rows) = imei ∷ unknown_imeis rows
  unknown_imeis (ok _ _ ∷ rows) = unknown_imeis rows
  unknown_imeis (invalid _ _ ∷ rows) = unknown_imeis rows

  unfoldable pub invalid_imeis : List (MetadataRow Num) → List Text
  invalid_imeis [] = []
  invalid_imeis (invalid imei _ ∷ rows) = imei ∷ invalid_imeis rows
  invalid_imeis (ok _ _ ∷ rows) = invalid_imeis rows
  invalid_imeis (unknown _ ∷ rows) = invalid_imeis rows

  abbrev pub imeis_of : List (PatchInput Num) → List Text
  imeis_of inputs = map (λ (input : PatchInput Num). input.imei) inputs

  unfoldable pub groups_of : List (MetadataRow Num) → List Group
  groups_of rows =
      group "Will be updated" (imeis_of (updatable rows))
      ∷ group "Not registered" (unknown_imeis rows)
      ∷ group "Invalid" (invalid_imeis rows)
      ∷ []

  abbrev upper_of : Option Text → Option (Staged Num) → Upper
  upper_of error none = dropzone error
  upper_of error (some staged) =
      let n = length staged.rows in
      file_card staged.file_name (decimal n ++ codes " row" ++ plural n) (groups_of staged.rows)

  -- What `ImportMetadataDialog` returns, once it is open.
  unfoldable pub import_metadata_dialog : Dialog Num → Shown
  import_metadata_dialog d =
      let n = length (updatable (rows_of d.staged)) in
      record {
        upper = upper_of d.read_error d.staged;
        alert = alert_of d.submit_error;
        cancel_disabled = d.submitting;
        update_disabled = n == 0 || d.submitting;
        has_spinner = d.submitting;
        update_label = update_label n;
      }
