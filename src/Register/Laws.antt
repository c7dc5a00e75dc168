-- ===== src/Register/Laws.antt =====
-- What a settled registration does to the form, and to a later classification of the same file.
use gps_connector.Prelude.{
  ◌≡◌, refl, ap, ◌∙◌, Bool, true, false, ◌&&◌, ◌||◌, not, some, List, [], ◌∷◌, ◌++◌, map, Text,
  arith, has, has-append, text_eq,
}
use gps_connector.Client.{RegisterStatus, created, already_registered, error, RegisterResult}
use gps_connector.Imei.{parse_imeis}
use gps_connector.Bulk.{classify}
use gps_connector.Bulk.Classify.{classify-parse_imeis}
use gps_connector.Hooks.TenantImeis
use gps_connector.Hooks.TenantImeis.{has-mark_registered}
use gps_connector.Register.{
  GpsDevice, Form, DeviceRecord, add_records, mark_registered, Sorted, sort_results, sort_result,
  none_sorted, imei_of, bulk_settled,
}

abbrev pub is_created : RegisterStatus → Bool
is_created created = true
is_created _ = false

abbrev pub is_error : RegisterStatus → Bool
is_error error = true
is_error _ = false

-- Whether the server named the IMEI as registered, now or before.
abbrev pub reported : Text → List RegisterResult → Bool
reported t [] = false
reported t (r ∷ rs) = text_eq r.imei t && not (is_error r.status) || reported t rs

abbrev marked : Sorted → List Text
marked s = map imei_of s.new_records ++ s.already_imeis

map-snoc {ℓ κ} :
    {A : Type ℓ} {B : Type κ} (f : A → B) (xs : List A) (x : A)
    → map f (xs ++ x ∷ []) ≡ map f xs ++ f x ∷ []
map-snoc f [] x = refl
map-snoc f (y ∷ xs) x = ap (λ r. f y ∷ r) (map-snoc f xs x)

marked-result :
    (device : GpsDevice) (t : Text) (s : Sorted) (imei : Text) (status : RegisterStatus)
    → has t (marked (sort_result device s imei status))
      ≡ (has t (marked s) || text_eq imei t && not (is_error status))
unfolding sort_result has
marked-result device t s imei created = rw map-snoc (
    ground (
      arith,
      has-append t (map imei_of s.new_records ++ imei ∷ []) s.already_imeis,
      has-append t (map imei_of s.new_records) (imei ∷ []),
      has-append t (map imei_of s.new_records) s.already_imeis,
    ))
marked-result device t s imei already_registered = ground (
  arith,
  has-append t (map imei_of s.new_records) (s.already_imeis ++ imei ∷ []),
  has-append t s.already_imeis (imei ∷ []),
  has-append t (map imei_of s.new_records) s.already_imeis,
)
marked-result device t s imei error = ground arith

marked-results :
    (device : GpsDevice) (t : Text) (s : Sorted) (rs : List RegisterResult)
    → has t (marked (sort_results device s rs)) ≡ (has t (marked s) || reported t rs)
unfolding sort_results
marked-results device t s [] = ground arith
marked-results device t s (r ∷ rs) = ground (
  arith,
  marked-results device t (sort_result device s r.imei r.status) rs,
  marked-result device t s r.imei r.status,
)

tenant-add_records :
    (rs : List DeviceRecord) (form : Form) → (add_records rs form).tenant ≡ form.tenant
unfolding add_records
tenant-add_records [] form = refl
tenant-add_records (_ ∷ _) form = refl

-- Once the answer to a bulk registration has settled, the tenant's set has grown by exactly the IMEIs
-- that the server reported as created or as registered before.
pub bulk_settled-tenant :
    (device : GpsDevice) (results : List RegisterResult) (form : Form) (t : Text)
    → has t (bulk_settled device (some results) form).0.tenant.imeis
      ≡ (has t form.tenant.imeis || reported t results)
unfolding bulk_settled mark_registered has
bulk_settled-tenant device results form t =
    let s = sort_results device none_sorted results in
    has-mark_registered t (marked s) (add_records s.new_records form).tenant
    ∙ ap (λ (tenant : TenantImeis.State). has t tenant.imeis || has t (marked s))
        (tenant-add_records s.new_records form)
    ∙ ap (λ b. has t form.tenant.imeis || b) (marked-results device t none_sorted results)

-- A second confirmation of the same file posts only what the server has not reported: after the
-- first answer, the new IMEIs of the file are those before it less the reported ones.
pub retry_posts_unreported :
    (name text : Text) (device : GpsDevice) (results : List RegisterResult) (form : Form) (t : Text)
    → let after = (bulk_settled device (some results) form).0 in
      has t (classify name (parse_imeis text) after.tenant.imeis).new_imeis ≡ (
        has t (classify name (parse_imeis text) form.tenant.imeis).new_imeis
        && not (reported t results))
retry_posts_unreported name text device results form t =
    let after = (bulk_settled device (some results) form).0 in
    ground (
      arith,
      (classify-parse_imeis name text after.tenant.imeis).0 t,
      (classify-parse_imeis name text form.tenant.imeis).0 t,
      bulk_settled-tenant device results form t,
    )
