-- ===== src/Register/Page.antt =====
-- The registration page as a whole: `RegisterForm` of frontend/app/register/register-form.tsx with what the
-- tenant's hook has loaded, what the form shows, and the tab of manual-imei-tab.tsx as it is shown.
pub mod Kept
pub mod Settled
use gps_connector.Prelude.{
  ◌≡◌, Text, codes, Bool, true, false, Option, none, some, List, [], ◌∷◌, if◌then◌else◌,
}
use gps_connector.Client.{RegisterResult}
use gps_connector.Hooks.TenantImeis
use gps_connector.Register.{
  GpsDevice, teltonika, device_name, Form, require_device, select_device, manual_settled,
  bulk_settled,
}
use gps_connector.Register.Manual.{Tab}
use gps_connector.Overview.Columns.{Generated, generated_section}

-- The form, and whether the hook is still loading the devices.
pub record Page : Type 0 where
  pub form : Form
  pub loading : Bool

-- The page with this state of the hook, before anything is selected or registered.
abbrev pub page_with : TenantImeis.State → Bool → Page
page_with tenant loading = record {
  form = record { tenant = tenant; records = []; selected_device = none; device_missing = false };
  loading = loading;
}

abbrev with_tenant : TenantImeis.State → Form → Form
with_tenant tenant form = record form { tenant = tenant }

-- What happens to the page: a device is selected, or asked for before a submission; the call for one IMEI or
-- for a file settles; the hook's request answers with the IMEIs of the devices, or fails.
pub data Event : Type 0 where
  selects : GpsDevice → Event
  requires : Event
  single_settles :
      (device : GpsDevice) (imei : Text) (answer : Option (List RegisterResult)) → Event
  bulk_settles : (device : GpsDevice) (answer : Option (List RegisterResult)) → Event
  loads : (device_imeis : List Text) → Event
  load_fails : Event

unfoldable pub handle : Event → Page → Page
handle (selects device) p = record p { form = select_device device p.form }
handle requires p = record p { form = (require_device p.form).0 }
handle (single_settles device imei answer) p = record p {
  form = (manual_settled device imei answer p.form).0;
}
handle (bulk_settles device answer) p = record p { form = (bulk_settled device answer p.form).0 }
handle (loads device_imeis) p = record {
  form = with_tenant (TenantImeis.on_devices false device_imeis p.form.tenant) p.form;
  loading = false;
}
handle load_fails p = record {
  form = with_tenant (TenantImeis.on_failure false p.form.tenant) p.form;
  loading = false;
}

-- The hook's request, which is sent once, answers at most once.
abbrev pub Allowed : Page → Event → Type 0
Allowed p (loads _) = p.loading ≡ true
Allowed p load_fails = p.loading ≡ true
Allowed p _ = Unit

pub data Reach (first : Page) : Page → Type 0 where
  start : Reach first first
  step : (p : Page) (e : Event) → Reach first p → Allowed p e → Reach first (handle e p)

-- The text below a field: an error, or what the field is for.
pub data FieldText : Type 0 where
  field_error : Text → FieldText
  field_description : Text → FieldText

-- The field for the kind of device, with its options.
pub record DeviceField : Type 0 where
  pub invalid : Bool
  pub value : Option GpsDevice
  pub options : List Text
  pub message : FieldText

unfoldable pub device_field : Form → DeviceField
device_field form = record {
  invalid = form.device_missing;
  value = form.selected_device;
  options = device_name teltonika ∷ [];
  message =
      if form.device_missing
      then field_error (codes "Select a GPS device")
      else field_description (codes "Applied to every IMEI generated below.");
}

-- The tab for one IMEI: its input, its button with or without a spinner, and the text below.
pub record SingleTab : Type 0 where
  pub invalid : Bool
  pub value : Text
  pub disabled : Bool
  pub has_spinner : Bool
  pub message : FieldText

abbrev single_message : Option Text → FieldText
single_message (some (c ∷ error)) = field_error (c ∷ error)
single_message _ = field_description (codes "15-digit number printed on the device.")

abbrev has_error : Option Text → Bool
has_error (some (_ ∷ _)) = true
has_error _ = false

unfoldable pub manual_imei_tab : Tab → SingleTab
manual_imei_tab tab = record {
  invalid = has_error tab.error;
  value = tab.value;
  disabled = tab.submitting;
  has_spinner = tab.submitting;
  message = single_message tab.error;
}

-- What the page shows around the tab for a file: the field, the tab for one IMEI, and the devices registered
-- so far.
unfoldable pub register_form : Form → Tab → DeviceField × SingleTab × Generated
register_form form tab = (device_field form, manual_imei_tab tab, generated_section form.records)
