-- ===== src/Register/Tests.antt =====
-- The theorems about the registration form at concrete answers.
use gps_connector.Prelude.{
  ◌≡◌, refl, codes, Text, List, [], ◌∷◌, has, text_eq, some, none, true, false, ◌&&◌, not, trim,
  is_space,
}
use gps_connector.Client.{RegisterResult, created, error}
use gps_connector.Imei.{
  validate_imei, Validation, parse_imeis, is_fifteen_digits, is_digit, luhn_check, luhn_from,
  luhn_term,
}
use gps_connector.Bulk.{classify}
use gps_connector.Hooks.TenantImeis
use gps_connector.Register.{
  Form, teltonika, bulk_settled, sort_results, sort_result, add_records, mark_registered, input_of,
  submit_manual, require_device,
}
use gps_connector.Register.Laws.{reported, retry_posts_unreported}
use gps_connector.Register.Page
use gps_connector.Register.Page.{Page, page_with, selects, bulk_settles, loads, start, step}
use gps_connector.Register.Page.Kept.{is_listed}
use gps_connector.Register.Page.Settled.{IsSettled, Reach-IsSettled}
use gps_connector.Register.Manual.{
  Tab, posting, press_register, handle_submit, press_register-posts,
}

abbrev imei : Text
imei = codes "490154203237518"

abbrev form : Form
form = record {
  tenant = TenantImeis.initial;
  records = [];
  selected_device = some teltonika;
  device_missing = false;
}

abbrev results : List RegisterResult
results =
    record { imei = imei; status = created; error = none }
    ∷ record { imei = codes "35"; status = error; error = none }
    ∷ []

retry_posts_unreported_example :
    has imei
      (classify
        (codes "a.csv")
        (parse_imeis imei)
        (bulk_settled teltonika (some results) form).0.tenant.imeis).new_imeis
    ≡ (has imei (classify (codes "a.csv") (parse_imeis imei) []).new_imeis
        && not (reported imei results))
retry_posts_unreported_example =
    retry_posts_unreported (codes "a.csv") imei teltonika results form imei

abbrev tab : Tab
tab = record { value = codes " 490154203237518"; error = none; submitting = false }

posts_one : (press_register tab form).1 ≡ posting imei teltonika (input_of teltonika imei ∷ [])
unfolding press_register handle_submit require_device submit_manual trim is_space validate_imei
    is_fifteen_digits is_digit luhn_check luhn_from luhn_term has
posts_one = refl

press_register-posts_example :
    (tab.submitting ≡ false)
    × (form.selected_device ≡ some teltonika)
    × (imei ≡ trim tab.value)
    × (validate_imei imei ≡ Validation.ok)
    × (has imei form.tenant.imeis ≡ false)
    × (input_of teltonika imei ∷ [] ≡ input_of teltonika imei ∷ [])
    × ((press_register tab form).0.0.submitting ≡ true)
press_register-posts_example =
    press_register-posts tab form imei teltonika (input_of teltonika imei ∷ []) posts_one

abbrev loaded_tenant : TenantImeis.State
loaded_tenant = TenantImeis.on_devices false [] TenantImeis.initial

abbrev first_page : Page
first_page = page_with loaded_tenant false

abbrev selected_page : Page
selected_page = Page.handle (selects teltonika) first_page

abbrev settled_page : Page
settled_page = Page.handle (bulk_settles teltonika (some results)) selected_page

Reach-IsSettled_example :
    ((t : Text) → is_listed t settled_page.form ≡ true → IsSettled settled_page.form t)
    × (settled_page.form.device_missing ≡ true → settled_page.form.selected_device ≡ none)
Reach-IsSettled_example = Reach-IsSettled (
    step selected_page (bulk_settles teltonika (some results))
      (step first_page (selects teltonika) start tt) tt)

-- The list of devices that was asked for before a registration, and arrives after it, drops the IMEI from the
-- set, while the page goes on listing it.
late_page : Page
late_page =
    Page.handle (loads [])
      (Page.handle (bulk_settles teltonika (some results)) (page_with TenantImeis.initial true))

late_load_drops :
    (is_listed imei late_page.form ≡ true) × (has imei late_page.form.tenant.imeis ≡ false)
unfolding late_page Page.handle bulk_settled sort_results sort_result add_records mark_registered
    TenantImeis.mark_registered TenantImeis.add_all TenantImeis.add TenantImeis.on_devices has
    text_eq
late_load_drops = (refl, refl)
