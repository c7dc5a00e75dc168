-- ===== src/Register/Manual.antt =====
-- The tab for one IMEI: frontend/app/register/manual-imei-tab.tsx, with the form around it.
use gps_connector.Prelude.{
  ◌≡◌, refl, ◌∙◌, ◌⊎◌, inl, inr, Bool, true, false, ◌||◌, not, Option, none, some, List, [], ◌∷◌,
  ◌++◌, Text, codes, arith, find, has, text_eq, if◌then◌else◌, Option-cases, trim, truthy,
}
use gps_connector.Client.{
  RegisterStatus, created, already_registered, error, RegisterInput, RegisterResult,
}
use gps_connector.Imei.{Validation, validate_imei}
use gps_connector.Hooks.TenantImeis.{has-mark_registered}
use gps_connector.Register.{
  GpsDevice, Form, DeviceRecord, ManualSubmitResult, ok, not_ok, add_records, mark_registered,
  input_of, record_of, submit_manual, manual_settled, manual_status, require_device,
}

pub record Tab : Type 0 where
  pub value : Text
  pub error : Option Text
  pub submitting : Bool

unfoldable pub change_value : Text → Tab → Tab
change_value v tab = record tab { value = v; error = none }

validated : Tab → Text → Validation → Tab × Option Text
validated tab imei Validation.ok = (record tab { submitting = true; error = none }, some imei)
validated tab imei (Validation.failed reason) = (record tab { error = some (codes reason) }, none)

-- `handleSubmit` up to the call of `onSubmit`: the IMEI that it is called with, if it is.
unfoldable pub handle_submit : Tab → Form → (Tab × Option Text) × Form
unfolding validated
handle_submit tab form =
    let imei = trim tab.value in
    let (form', chosen) = require_device form in
    if tab.submitting
    then ((tab, none), form)
    else if not chosen
    then ((tab, none), form')
    else if not (truthy imei)
    then ((tab, none), form')
    else (validated tab imei (validate_imei imei), form')

-- `handleSubmit` once `onSubmit` has answered.
unfoldable pub submit_settled : ManualSubmitResult → Tab → Tab
submit_settled ok tab = record tab { submitting = false; value = [] }
submit_settled (not_ok e) tab = record tab { submitting = false; error = some e }

pub data Started : Type 0 where
  stopped : Started
  posting : (imei : Text) (device : GpsDevice) (posted : List RegisterInput) → Started

answered :
    Tab
    → Form
    → Text
    → ManualSubmitResult ⊎ (GpsDevice × List RegisterInput)
    → (Tab × Form) × Started
answered tab form imei (inl result) = ((submit_settled result tab, form), stopped)
answered tab form imei (inr (device, posted)) = ((tab, form), posting imei device posted)

called : Tab → Form → Option Text → (Tab × Form) × Started
called tab form none = ((tab, form), stopped)
called tab form (some imei) = answered tab form imei (submit_manual form imei)

-- A press of the button, with `submitManual` as `onSubmit`, until a request is sent or it is over.
unfoldable pub press_register : Tab → Form → (Tab × Form) × Started
unfolding called answered
press_register tab form =
    let ((tab', imei), form') = handle_submit tab form in called tab' form' imei

-- A request for one IMEI is sent only if none is under way and a device is selected; it names the
-- trimmed input alone, a valid IMEI that the tenant does not have, and the tab then refuses others.
pub press_register-posts :
    (tab : Tab) (form : Form) (imei : Text) (device : GpsDevice) (posted : List RegisterInput)
    → (press_register tab form).1 ≡ posting imei device posted
    → (tab.submitting ≡ false)
      × (form.selected_device ≡ some device)
      × (imei ≡ trim tab.value)
      × (validate_imei imei ≡ Validation.ok)
      × (has imei form.tenant.imeis ≡ false)
      × (posted ≡ input_of device imei ∷ [])
      × ((press_register tab form).0.0.submitting ≡ true)
unfolding press_register handle_submit require_device submit_manual
press_register-posts tab form imei device posted h = ground arith

-- While a request is under way a press of the button changes nothing and sends nothing.
pub press_register_busy :
    (tab : Tab) (form : Form)
    → tab.submitting ≡ true
    → press_register tab form ≡ ((tab, form), stopped)
unfolding press_register handle_submit
press_register_busy tab form h = ground arith

add-one-record :
    (r : DeviceRecord) (form : Form) → (add_records (r ∷ []) form).records ≡ form.records ++ r ∷ []
unfolding add_records
add-one-record r form = refl

-- The answer to a single registration: if the first result for the IMEI says `created`, the form has
-- one more record and the tenant's set exactly that IMEI more; in every other case (another
-- status, no result, a thrown error) the form is unchanged and an error is reported.
pub manual_settled_lem :
    (device : GpsDevice) (imei : Text) (answer : Option (List RegisterResult)) (form : Form)
    → let after = manual_settled device imei answer form in
      ((after.1 ≡ ok)
        × (after.0.records ≡ form.records ++ record_of device imei ∷ [])
        × ((t : Text) → has t after.0.tenant.imeis ≡ (has t form.tenant.imeis || text_eq imei t)))
      ⊎ ((after.0 ≡ form) × ((e : Text) × (after.1 ≡ not_ok e)))
unfolding manual_settled mark_registered add_records has
manual_settled_lem device imei none form = inr (refl, (_, refl))
manual_settled_lem device imei (some results) form =
    elim (Option-cases (find (λ r. text_eq r.imei imei) results)) [
      | inl e ↦ rw (e, manual_settled) (inr (refl, (_, refl)))
      | inr (r, e) ↦ rw (e, manual_settled) (by_status r.status)
    ]
  where
    by_status :
        (status : RegisterStatus)
        → let after = manual_status device imei status form in
          ((after.1 ≡ ok)
            × (after.0.records ≡ form.records ++ record_of device imei ∷ [])
            × ((t : Text)
                → has t after.0.tenant.imeis ≡ (has t form.tenant.imeis || text_eq imei t)))
          ⊎ ((after.0 ≡ form) × ((e : Text) × (after.1 ≡ not_ok e)))
    by_status created =
        inl (refl, refl, λ t. has-mark_registered t (imei ∷ []) form.tenant ∙ ground arith)
    by_status already_registered = inr (refl, (_, refl))
    by_status error = inr (refl, (_, refl))
