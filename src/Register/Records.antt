-- ===== src/Register/Records.antt =====
-- The records and the answer of a settled registration, and what a submission posts.
use gps_connector.Prelude.{
  ℕ, ◌+◌, ◌≡◌, refl, sym, ap, ◌∙◌, ◌↔◌, inl, inr, Bool, true, ◌&&◌, some, List, [], ◌∷◌, ◌++◌, map,
  Text, arith, length, length-append, filter, all, ◌==◌, if◌then◌else◌, Bool-cases, append_assoc,
  append-nil, Option-cases,
}
use gps_connector.Client.{
  RegisterStatus, created, already_registered, error, RegisterInput, RegisterResult,
}
use gps_connector.Bulk.{ClassifiedBulk, registered}
use gps_connector.Register.{
  GpsDevice, Form, DeviceRecord, add_records, mark_registered, input_of, record_of, submit_bulk,
  Sorted, sort_results, sort_result, none_sorted, bulk_settled,
}
use gps_connector.Register.Laws.{is_created}

abbrev pub of_status : RegisterResult → Bool
of_status r = is_created r.status

-- The records of the results that say `created`, in their order.
abbrev pub created_records : GpsDevice → List RegisterResult → List DeviceRecord
created_records device results = map (λ r. record_of device r.imei) (filter of_status results)

new-result :
    (device : GpsDevice) (s : Sorted) (r : RegisterResult)
    → (sort_result device s r.imei r.status).new_records
      ≡ s.new_records ++ created_records device (r ∷ [])
unfolding sort_result
new-result device s r = go r.status refl
  where
    go :
        (status : RegisterStatus)
        → r.status ≡ status
        → (sort_result device s r.imei r.status).new_records
          ≡ s.new_records ++ created_records device (r ∷ [])
    go created e = rw e refl
    go already_registered e = rw e (sym (append-nil s.new_records))
    go error e = rw e (sym (append-nil s.new_records))

created-cons :
    (device : GpsDevice) (r : RegisterResult) (rs : List RegisterResult)
    → created_records device (r ∷ []) ++ created_records device rs ≡ created_records device (r ∷ rs)
created-cons device r rs = elim (Bool-cases (is_created r.status)) [ inl e ↦ rw e | inr e ↦ rw e ]

new-results :
    (device : GpsDevice) (s : Sorted) (rs : List RegisterResult)
    → (sort_results device s rs).new_records ≡ s.new_records ++ created_records device rs
unfolding sort_results
new-results device s [] = sym (append-nil s.new_records)
new-results device s (r ∷ rs) =
    new-results device (sort_result device s r.imei r.status) rs
    ∙ ap (λ n. n ++ created_records device rs) (new-result device s r)
    ∙ append_assoc s.new_records (created_records device (r ∷ [])) (created_records device rs)
    ∙ ap (λ n. s.new_records ++ n) (created-cons device r rs)

add_records-append :
    (rs : List DeviceRecord) (form : Form) → (add_records rs form).records ≡ form.records ++ rs
unfolding add_records
add_records-append [] form = sym (append-nil form.records)
add_records-append (r ∷ rs) form = refl

-- A settled bulk registration appends one record to the list shown for each result that says
-- `created`, in the order of the results, and nothing else.
pub bulk_settled-records :
    (device : GpsDevice) (results : List RegisterResult) (form : Form)
    → (bulk_settled device (some results) form).0.records
      ≡ form.records ++ created_records device results
unfolding bulk_settled mark_registered
bulk_settled-records device results form =
    add_records-append (sort_results device none_sorted results).new_records form
    ∙ ap (λ n. form.records ++ n) (new-results device none_sorted results)

others : Sorted → ℕ
others s = length s.failed_imeis + length s.already_imeis

others-result :
    (device : GpsDevice) (s : Sorted) (imei : Text) (status : RegisterStatus)
    → others (sort_result device s imei status) ≡ others s + (if is_created status then 0 else 1)
unfolding sort_result others
others-result device s imei created = omega arith
others-result device s imei already_registered =
    omega (arith, length-append s.already_imeis (imei ∷ []))
others-result device s imei error = omega (arith, length-append s.failed_imeis (imei ∷ []))

others-results :
    (device : GpsDevice) (s : Sorted) (rs : List RegisterResult)
    → (others (sort_results device s rs) == 0) ≡ (others s == 0 && all of_status rs)
unfolding sort_results
others-results device s [] = ground arith
others-results device s (r ∷ rs) = ground (
  arith,
  others-results device (sort_result device s r.imei r.status) rs,
  others-result device s r.imei r.status,
)

-- The bulk registration reports full success exactly when every result says `created`.
pub bulk_registered_iff :
    (device : GpsDevice) (results : List RegisterResult) (form : Form)
    → ((bulk_settled device (some results) form).1 ≡ registered) ↔ (all of_status results ≡ true)
unfolding bulk_settled others
bulk_registered_iff device results form = (
  λ h. ground (arith, others-results device none_sorted results),
  λ h. ground (arith, others-results device none_sorted results),
)

inputs-imeis :
    (device : GpsDevice) (imeis : List Text)
    → map (λ (i : RegisterInput). i.imei) (map (input_of device) imeis) ≡ imeis
inputs-imeis device [] = refl
inputs-imeis device (imei ∷ imeis) = ap (λ r. imei ∷ r) (inputs-imeis device imeis)

posted-inputs :
    (form : Form) (payload : ClassifiedBulk) (device : GpsDevice) (posted : List RegisterInput)
    (d : GpsDevice)
    → form.selected_device ≡ some d
    → submit_bulk form payload ≡ inr (device, posted)
    → posted ≡ map (input_of d) payload.new_imeis
unfolding submit_bulk
posted-inputs form payload device posted d e h = ground arith

-- What is posted for a payload is its new IMEIs in order, each with the selected device; nothing is
-- posted when no device is selected.
pub submit_bulk-posts :
    (form : Form) (payload : ClassifiedBulk) (device : GpsDevice) (posted : List RegisterInput)
    → submit_bulk form payload ≡ inr (device, posted)
    → (form.selected_device ≡ some device)
      × (map (λ (i : RegisterInput). i.imei) posted ≡ payload.new_imeis)
unfolding submit_bulk
submit_bulk-posts form payload device posted h = elim (Option-cases form.selected_device) [
  | inl e ↦ ground (arith, h)
  | inr (d, e) ↦ (
    ground arith,
    ap (map (λ (i : RegisterInput). i.imei)) (posted-inputs form payload device posted d e h)
        ∙ inputs-imeis d payload.new_imeis,
  )
]
