-- ===== src/Register.antt =====
-- The registration form: frontend/app/register/register-form.tsx. A submission has two parts: what
-- happens before `postDevices` is called, and what happens to the form, as it is then, once the
-- call has settled (`none`: it threw).
mod Tests
pub mod Laws
pub mod Records
pub mod Manual
pub mod Page
use gps_connector.Prelude.{
  Bool, true, false, ◌&&◌, Option, none, some, List, [], ◌∷◌, ◌++◌, map, Text, codes, ◌⊎◌, inl, inr,
  ℕ, ◌==◌, length, find, has, text_eq, if◌then◌else◌,
}
use gps_connector.Client.{
  RegisterStatus, created, already_registered, error, RegisterInput, RegisterResult,
}
use gps_connector.Bulk.{ClassifiedBulk, BulkSubmitResult, registered, failed, partial}
use gps_connector.Hooks.TenantImeis
use gps_connector.Vehicle.{Vehicle}

-- frontend/lib/devices.ts
pub data GpsDevice : Type 0 where
  teltonika : GpsDevice

abbrev pub device_name : GpsDevice → Text
device_name teltonika = codes "teltonika"

-- frontend/lib/devices-store.ts
pub record DeviceRecord : Type 0 where
  pub imei : Text
  pub gps_device : Option Text
  pub vehicle : Option Vehicle

-- The empty selection is `none`.
pub record Form : Type 0 where
  pub tenant : TenantImeis.State
  pub records : List DeviceRecord
  pub selected_device : Option GpsDevice
  pub device_missing : Bool

pub data ManualSubmitResult : Type 0 where
  ok : ManualSubmitResult
  not_ok : (error : Text) → ManualSubmitResult

unfoldable pub add_records : List DeviceRecord → Form → Form
add_records [] form = form
add_records (r ∷ rs) form = record form { records = form.records ++ r ∷ rs }

unfoldable pub require_device : Form → Form × Bool
require_device form = elim form.selected_device [
  | some _ ↦ (form, true)
  | none ↦ (record form { device_missing = true }, false)
]

unfoldable pub select_device : GpsDevice → Form → Form
select_device device form = record form { selected_device = some device; device_missing = false }

unfoldable pub mark_registered : List Text → Form → Form
mark_registered imeis form = record form { tenant = TenantImeis.mark_registered imeis form.tenant }

abbrev pub input_of : GpsDevice → Text → RegisterInput
input_of device imei = record { imei = imei; device_type = device_name device }

abbrev pub record_of : GpsDevice → Text → DeviceRecord
record_of device imei = record {
  imei = imei;
  gps_device = some (device_name device);
  vehicle = none;
}

-- `submitManual` up to the call: a refusal, or the device and what is posted.
unfoldable pub submit_manual : Form → Text → ManualSubmitResult ⊎ (GpsDevice × List RegisterInput)
submit_manual form imei = elim form.selected_device [
  | none ↦ inl (not_ok (codes "Select a GPS device first"))
  | some device ↦
      if has imei form.tenant.imeis
      then inl (not_ok (codes "Already registered"))
      else inr (device, input_of device imei ∷ [])
]

manual_status : GpsDevice → Text → RegisterStatus → Form → Form × ManualSubmitResult
manual_status device imei created form =
    (mark_registered (imei ∷ []) (add_records (record_of device imei ∷ []) form), ok)
manual_status device imei already_registered form =
    (form, not_ok (codes "Already registered with this tenant"))
manual_status device imei error form = (form, not_ok (codes "Registration failed"))

unfoldable pub manual_settled :
    GpsDevice → Text → Option (List RegisterResult) → Form → Form × ManualSubmitResult
unfolding manual_status
manual_settled device imei none form = (form, not_ok (codes "Registration failed"))
manual_settled device imei (some results) form =
    elim (find (λ result. text_eq result.imei imei) results) [
      | none ↦ (form, not_ok (codes "Registration failed"))
      | some result ↦ manual_status device imei result.status form
    ]

-- `submitBulk` up to the call.
unfoldable pub submit_bulk :
    Form → ClassifiedBulk → BulkSubmitResult ⊎ (GpsDevice × List RegisterInput)
submit_bulk form payload = elim form.selected_device [
  | none ↦ inl (failed (codes "Select a GPS device first"))
  | some device ↦ inr (device, map (input_of device) payload.new_imeis)
]

-- The three lists that the loop over the results fills.
pub record Sorted : Type 0 where
  pub new_records : List DeviceRecord
  pub already_imeis : List Text
  pub failed_imeis : List Text

sort_result : GpsDevice → Sorted → Text → RegisterStatus → Sorted
sort_result device s imei created = record s {
  new_records = s.new_records ++ record_of device imei ∷ [];
}
sort_result device s imei already_registered = record s {
  already_imeis = s.already_imeis ++ imei ∷ [];
}
sort_result device s imei error = record s { failed_imeis = s.failed_imeis ++ imei ∷ [] }

unfoldable pub sort_results : GpsDevice → Sorted → List RegisterResult → Sorted
unfolding sort_result
sort_results device s [] = s
sort_results device s (r ∷ rs) = sort_results device (sort_result device s r.imei r.status) rs

abbrev pub none_sorted : Sorted
none_sorted = record { new_records = []; already_imeis = []; failed_imeis = [] }

abbrev pub imei_of : DeviceRecord → Text
imei_of r = r.imei

unfoldable pub bulk_settled :
    GpsDevice → Option (List RegisterResult) → Form → Form × BulkSubmitResult
bulk_settled device none form = (form, failed (codes "Registration failed"))
bulk_settled device (some results) form =
    let s = sort_results device none_sorted results in
    (
      mark_registered (map imei_of s.new_records ++ s.already_imeis)
          (add_records s.new_records form),
      if length s.failed_imeis == 0 && length s.already_imeis == 0
          then registered
          else partial s.failed_imeis s.already_imeis,
    )
