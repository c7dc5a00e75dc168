-- ===== src/Register/Page/Kept.antt =====
-- What the registration page keeps: its list of registered devices beside the tenant's set.
use gps_connector.Prelude.{
  ◌≡◌, refl, ap, sym, ◌∙◌, inl, inr, Text, Bool, true, false, ◌||◌, Option, none, some, List, [],
  ◌∷◌, ◌++◌, map, arith, has, has-cons, has-append, text_eq, find, Bool-cases, Option-cases,
}
use gps_connector.Client.{RegisterStatus, created, already_registered, error, RegisterResult}
use gps_connector.Hooks.TenantImeis.{has-mark_registered}
use gps_connector.Register.{
  GpsDevice, Form, DeviceRecord, imei_of, record_of, require_device, select_device, manual_settled,
  manual_status, bulk_settled, add_records, mark_registered, sort_results, none_sorted,
}
use gps_connector.Register.Laws.{is_created, is_error, reported, bulk_settled-tenant}
use gps_connector.Register.Records.{created_records, bulk_settled-records}
use gps_connector.Register.Page.{
  Page, Event, selects, requires, single_settles, bulk_settles, loads, load_fails, handle, Allowed,
  Reach, start, step,
}

-- The IMEI is in the list of registered devices.
abbrev pub is_listed : Text → Form → Bool
is_listed t form = has t (map imei_of form.records)

pub record Keeps (form : Form) : Type 0 where
  pub in_set : (t : Text) → is_listed t form ≡ true → has t form.tenant.imeis ≡ true
  pub missing : form.device_missing ≡ true → form.selected_device ≡ none

map-append : (rs qs : List DeviceRecord) → map imei_of (rs ++ qs) ≡ map imei_of rs ++ map imei_of qs
map-append [] qs = refl
map-append (r ∷ rs) qs = ap (λ ts. r.imei ∷ ts) (map-append rs qs)

created_ok : (status : RegisterStatus) → is_created status ≡ true → is_error status ≡ false
created_ok created h = refl
created_ok already_registered h = refl
created_ok error h = cc

created-reported :
    (device : GpsDevice) (t : Text) (results : List RegisterResult)
    → has t (map imei_of (created_records device results)) ≡ true
    → reported t results ≡ true
created-reported device t [] h = unfold has in cc
created-reported device t (r ∷ rs) h = elim (Bool-cases (is_created r.status)) [
  | inl e ↦ ground (
    arith,
    created_ok r.status e,
    has-cons t r.imei (map imei_of (created_records device rs)),
    created-reported device t rs,
  )
  | inr e ↦ ground (arith, created-reported device t rs)
]

select-Keeps : (device : GpsDevice) (form : Form) → Keeps form → Keeps (select_device device form)
unfolding select_device
select-Keeps device form k = record { in_set = k.in_set; missing = λ e. cc }

require-Keeps : (form : Form) → Keeps form → Keeps (require_device form).0
unfolding require_device
require-Keeps form k = elim (Option-cases form.selected_device) [
  | inl e ↦ rw (e, require_device) (record { in_set = k.in_set; missing = λ _. e })
  | inr (d, e) ↦ rw (e, require_device) k
]

-- The selection, and whether it is said to be missing, are the same in both.
record SameChoice (form form' : Form) : Type 0 where
  pub missing : form'.device_missing ≡ form.device_missing
  pub selected : form'.selected_device ≡ form.selected_device

add_records-SameChoice :
    (rs : List DeviceRecord) (form : Form) → SameChoice form (add_records rs form)
unfolding add_records
add_records-SameChoice [] form = record { missing = refl; selected = refl }
add_records-SameChoice (_ ∷ _) form = record { missing = refl; selected = refl }

still-missing :
    (form form' : Form)
    → SameChoice form form'
    → (form.device_missing ≡ true → form.selected_device ≡ none)
    → form'.device_missing ≡ true
    → form'.selected_device ≡ none
still-missing form form' s h e = s.selected ∙ h (sym s.missing ∙ e)

status-Keeps :
    (device : GpsDevice) (imei : Text) (status : RegisterStatus) (form : Form)
    → Keeps form
    → Keeps (manual_status device imei status form).0
unfolding manual_status mark_registered add_records
status-Keeps device imei created form k = record {
  in_set = λ t h. ground (
    arith,
    has-mark_registered t (imei ∷ []) form.tenant,
    k.in_set t,
    map-append form.records (record_of device imei ∷ []),
    has-append t (map imei_of form.records) (imei ∷ []),
  );
  missing = k.missing;
}
status-Keeps device imei already_registered form k = k
status-Keeps device imei error form k = k

single-Keeps :
    (device : GpsDevice) (imei : Text) (answer : Option (List RegisterResult)) (form : Form)
    → Keeps form
    → Keeps (manual_settled device imei answer form).0
unfolding manual_settled
single-Keeps device imei none form k = k
single-Keeps device imei (some results) form k =
    elim (Option-cases (find (λ r. text_eq r.imei imei) results)) [
      | inl e ↦ rw (e, manual_settled) k
      | inr (r, e) ↦ rw (e, manual_settled) (status-Keeps device imei r.status form k)
    ]

bulk-SameChoice :
    (device : GpsDevice) (results : List RegisterResult) (form : Form)
    → SameChoice form (bulk_settled device (some results) form).0
unfolding bulk_settled mark_registered
bulk-SameChoice device results form =
    let c = add_records-SameChoice (sort_results device none_sorted results).new_records form in
    record { missing = c.missing; selected = c.selected }

bulk-listed :
    (device : GpsDevice) (results : List RegisterResult) (form : Form) (t : Text)
    → is_listed t (bulk_settled device (some results) form).0
      ≡ (is_listed t form || has t (map imei_of (created_records device results)))
bulk-listed device results form t =
    ap (λ rs. has t (map imei_of rs)) (bulk_settled-records device results form)
    ∙ ap (has t) (map-append form.records (created_records device results))
    ∙ has-append t (map imei_of form.records) (map imei_of (created_records device results))

bulk-Keeps :
    (device : GpsDevice) (answer : Option (List RegisterResult)) (form : Form)
    → Keeps form
    → Keeps (bulk_settled device answer form).0
bulk-Keeps device none form k = unfold bulk_settled in k
bulk-Keeps device (some results) form k = record {
  in_set = λ t h. ground (
    arith,
    bulk-listed device results form t,
    bulk_settled-tenant device results form t,
    k.in_set t,
    created-reported device t results,
  );
  missing = still-missing form _ (bulk-SameChoice device results form) k.missing;
}

handle-Keeps :
    (p : Page) (e : Event)
    → p.loading ≡ false
    → Allowed p e
    → Keeps p.form
    → Keeps (handle e p).form × ((handle e p).loading ≡ false)
unfolding handle
handle-Keeps p (selects device) l a k = (select-Keeps device p.form k, l)
handle-Keeps p requires l a k = (require-Keeps p.form k, l)
handle-Keeps p (single_settles device imei answer) l a k =
    (single-Keeps device imei answer p.form k, l)
handle-Keeps p (bulk_settles device answer) l a k = (bulk-Keeps device answer p.form k, l)
handle-Keeps p (loads _) l a k = cc (l, a)
handle-Keeps p load_fails l a k = cc (l, a)

pub Reach-Keeps :
    {first p : Page}
    → first.loading ≡ false
    → Keeps first.form
    → Reach first p
    → Keeps p.form × (p.loading ≡ false)
Reach-Keeps l k start = (k, l)
Reach-Keeps l k (step p e r a) = let (k', l') = Reach-Keeps l k r in handle-Keeps p e l' a k'
