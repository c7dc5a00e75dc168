-- ===== src/Register/Page/Settled.antt =====
-- What the registration page does not offer again.
use gps_connector.Prelude.{
  ◌≡◌, ◌≢◌, ◌⊎◌, refl, ap, sym, ◌∙◌, inl, inr, Text, Bool, true, false, List, none, arith, has,
  Option-cases,
}
use gps_connector.Client.{RegisterInput}
use gps_connector.Imei.{parse_imeis}
use gps_connector.Bulk.{classify}
use gps_connector.Bulk.Classify.{classify-parse_imeis}
use gps_connector.Hooks.TenantImeis
use gps_connector.Register.{GpsDevice, Form, ManualSubmitResult, submit_manual}
use gps_connector.Register.Page.{Page, page_with, Reach}
use gps_connector.Register.Page.Kept.{is_listed, Keeps, Reach-Keeps}

first-Keeps : (tenant : TenantImeis.State) → Keeps (page_with tenant false).form
unfolding has
first-Keeps tenant = record { in_set = λ t h. cc; missing = λ e. refl }

-- The IMEI is in the tenant's set, and neither the tab for one IMEI nor any file offers it again.
pub record IsSettled (form : Form) (t : Text) : Type 0 where
  pub in_set : has t form.tenant.imeis ≡ true
  pub not_alone :
      (device : GpsDevice) (posted : List RegisterInput)
      → submit_manual form t ≢ inr (device, posted)
  pub not_in_file :
      (name text : Text)
      → has t (classify name (parse_imeis text) form.tenant.imeis).new_imeis ≡ false

abbrev posts : ManualSubmitResult ⊎ (GpsDevice × List RegisterInput) → Bool
posts (inl _) = false
posts (inr _) = true

refused :
    (form : Form) (t : Text) → has t form.tenant.imeis ≡ true → posts (submit_manual form t) ≡ false
unfolding submit_manual
refused form t h = elim (Option-cases form.selected_device) [
  | inl e ↦ rw e refl
  | inr (d, e) ↦ rw (e, h) refl
]

not_posted :
    (form : Form) (t : Text)
    → has t form.tenant.imeis ≡ true
    → (device : GpsDevice) (posted : List RegisterInput)
    → submit_manual form t ≢ inr (device, posted)
not_posted form t h device posted e =
    let b : false ≡ true = sym (refused form t h) ∙ ap posts e in cc

-- On the registration page, once the tenant's devices have been loaded and as long as every registration has
-- settled after that: an IMEI that is listed as registered is in the tenant's set, the tab for one IMEI
-- does not post it and no file offers it as new; and the form says that a device is missing only
-- while none is selected.
pub Reach-IsSettled :
    {tenant : TenantImeis.State} {p : Page}
    → Reach (page_with tenant false) p
    → ((t : Text) → is_listed t p.form ≡ true → IsSettled p.form t)
      × (p.form.device_missing ≡ true → p.form.selected_device ≡ none)
Reach-IsSettled {tenant} {p} r =
    let (k, _) = Reach-Keeps refl (first-Keeps tenant) r in
    (
      λ t h.
          let s = k.in_set t h in
          record {
            in_set = s;
            not_alone = not_posted p.form t s;
            not_in_file = λ name text.
                ground (arith, (classify-parse_imeis name text p.form.tenant.imeis).0 t);
          },
      k.missing,
    )
