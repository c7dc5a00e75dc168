-- ===== src/Bulk/Review.antt =====
-- What the tab for a file shows: the markup of frontend/app/register/bulk-imei-tab.tsx and
-- bulk-confirm-dialog.tsx, as data.
pub mod Offered
use gps_connector.Prelude.{
  ℕ, ◌+◌, ltb, Text, String, codes, Bool, true, false, ◌||◌, List, [], ◌∷◌, ◌++◌, map, Option, none,
  some, ◌==◌, if◌then◌else◌, length, decimal,
}
use gps_connector.Bulk.{InvalidRow, ClassifiedBulk, classification_summary, imeis_preview}
use gps_connector.Bulk.Tab.{Tab, payload, dialog_total, confirm_disabled}

-- An item of the dialog: its title, its badge and, unless that is 0, its IMEIs.
pub record Group : Type 0 where
  pub title : Text
  pub badge : ℕ
  pub description : Option Text

unfoldable pub group : String → List Text → Group
group title imeis = record {
  title = codes title;
  badge = length imeis;
  description = if ltb 0 (length imeis) then some (imeis_preview imeis) else none;
}

-- The dialog: its two buttons are `Cancel` and the one that confirms, which has the spinner.
pub record Review : Type 0 where
  pub open_ : Bool
  pub title : Text
  pub description : Text
  pub groups : List Group
  pub alert : Option Text
  pub cancel_disabled : Bool
  pub confirm_disabled : Bool
  pub has_spinner : Bool
  pub confirm_label : Text

abbrev plural : ℕ → Text
plural n = if n == 1 then [] else codes "s"

unfoldable pub review_title : ℕ → Text
review_title total = codes "Review " ++ decimal total ++ codes " IMEI" ++ plural total

abbrev pub groups_of : ClassifiedBulk → List Group
groups_of p =
    group "New" p.new_imeis
    ∷ group "Already in use or duplicated" p.already_registered
    ∷ group "Invalid" (map (λ row. row.imei) p.invalid)
    ∷ []

-- `error && …`
abbrev alert_of : Option Text → Option Text
alert_of (some (c ∷ error)) = some (c ∷ error)
alert_of _ = none

abbrev pub review_of : Bool → Bool → Option Text → ClassifiedBulk → Review
review_of open_ submitting error p = record {
  open_ = open_;
  title = review_title (dialog_total p);
  description = p.file_name;
  groups = groups_of p;
  alert = alert_of error;
  cancel_disabled = submitting;
  confirm_disabled = confirm_disabled submitting p;
  has_spinner = submitting;
  confirm_label = codes "Register " ++ decimal (length p.new_imeis);
}

-- `BulkConfirmDialog`, which is nothing without a payload.
unfoldable pub bulk_confirm_dialog :
    Bool → Option ClassifiedBulk → Bool → Option Text → Option Review
bulk_confirm_dialog open_ none submitting error = none
bulk_confirm_dialog open_ (some p) submitting error = some (review_of open_ submitting error p)

-- Above the dialog: the name and the summary of the file with the button for the review, or the field for
-- a file with its error.
pub data Upper : Type 0 where
  file_card : (file_name summary : Text) → Upper
  dropzone : (error : Option Text) → Upper

upper_of : Option Text → Option ClassifiedBulk → Upper
upper_of error none = dropzone error
upper_of error (some p) = file_card p.file_name (classification_summary p)

-- What `BulkImeiTab` returns.
unfoldable pub bulk_imei_tab : List Text → Tab → Upper × Option Review
unfolding upper_of
bulk_imei_tab tenant tab = (
  upper_of tab.read_error (payload tenant tab),
  bulk_confirm_dialog tab.review_open (payload tenant tab) tab.submitting tab.dialog_error,
)
