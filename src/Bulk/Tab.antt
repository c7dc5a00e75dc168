-- ===== src/Bulk/Tab.antt =====
-- The tab for a file of IMEIs: `BulkImeiTab` of frontend/app/register/bulk-imei-tab.tsx and
-- `BulkConfirmDialog` of bulk-confirm-dialog.tsx. The tenant's IMEIs are the property `tenantImeis`.
pub mod Steps
pub mod Staged
use gps_connector.Prelude.{
  ℕ, ◌+◌, Bool, true, false, ◌&&◌, ◌||◌, not, Option, none, some, List, [], ◌∷◌, Text, codes, ◌==◌,
  if◌then◌else◌, length,
}
use gps_connector.Imei.{ParsedRow, parse_imeis}
use gps_connector.Bulk.{
  ClassifiedBulk, classify, BulkSubmitResult, registered, failed, partial, partial_summary,
}

pub record StagedFile : Type 0 where
  pub file_name : Text
  pub rows : List ParsedRow

pub record Tab : Type 0 where
  pub staged : Option StagedFile
  pub review_open : Bool
  pub submitting : Bool
  pub read_error : Option Text
  pub dialog_error : Option Text

abbrev pub initial : Tab
initial = record {
  staged = none;
  review_open = false;
  submitting = false;
  read_error = none;
  dialog_error = none;
}

abbrev payload_of : List Text → Option StagedFile → Option ClassifiedBulk
payload_of tenant none = none
payload_of tenant (some file) = some (classify file.file_name file.rows tenant)

unfoldable pub payload : List Text → Tab → Option ClassifiedBulk
payload tenant tab = payload_of tenant tab.staged

-- `handleFile`, before the file is read.
unfoldable pub handle_file : Tab → Tab
handle_file tab = record tab { read_error = none }

stage : Text → List ParsedRow → Tab → Tab
stage name [] tab = record tab { read_error = some (codes "No IMEIs found in file") }
stage name (row ∷ rows) tab = record tab {
  staged = some (record { file_name = name; rows = row ∷ rows });
}

-- The rest of `readFile`, with the text of the file (`none`: reading it threw).
unfoldable pub file_read : Text → Option Text → Tab → Tab
unfolding stage
file_read name none tab = record tab { read_error = some (codes "Failed to read file") }
file_read name (some text) tab = stage name (parse_imeis text) tab

-- The button that removes the file.
unfoldable pub remove_file : Tab → Tab
remove_file tab = record tab { staged = none }

-- `handleReview`, with the answer of `requireDevice`.
unfoldable pub handle_review : Bool → Tab → Tab
handle_review device_chosen tab =
    if device_chosen then record tab { dialog_error = none; review_open = true } else tab

confirm_payload : Option ClassifiedBulk → Tab → Tab × Option ClassifiedBulk
confirm_payload none tab = (tab, none)
confirm_payload (some p) tab =
    if tab.submitting
    then (tab, none)
    else (record tab { submitting = true; dialog_error = none }, some p)

-- `handleConfirm` up to the call of `onSubmit`: the payload that it is called with, if it is.
unfoldable pub handle_confirm : List Text → Tab → Tab × Option ClassifiedBulk
unfolding confirm_payload payload
handle_confirm tenant tab = confirm_payload (payload tenant tab) tab

-- `handleConfirm` once `onSubmit(payload)` has answered.
unfoldable pub confirm_settled : ClassifiedBulk → BulkSubmitResult → Tab → Tab
confirm_settled p registered tab = record tab {
  submitting = false;
  review_open = false;
  staged = none;
}
confirm_settled p (failed e) tab = record tab { submitting = false; dialog_error = some e }
confirm_settled p (partial failed_imeis already) tab = record tab {
  submitting = false;
  dialog_error = some (partial_summary (length p.new_imeis) failed_imeis already);
}

unfoldable pub handle_cancel : Tab → Tab
handle_cancel tab =
    if tab.submitting then tab else record tab { review_open = false; dialog_error = none }

-- `onOpenChange` of the dialog, with `handleCancel` as `onCancel`.
unfoldable pub dialog_open_change : Bool → Tab → Tab
unfolding handle_cancel
dialog_open_change next tab =
    if tab.submitting then tab else if not next then handle_cancel tab else tab

-- The number in the title of the dialog, and whether its button is disabled.
unfoldable pub dialog_total : ClassifiedBulk → ℕ
dialog_total p = length p.new_imeis + length p.already_registered + length p.invalid

unfoldable pub confirm_disabled : Bool → ClassifiedBulk → Bool
confirm_disabled submitting p = submitting || length p.new_imeis == 0
