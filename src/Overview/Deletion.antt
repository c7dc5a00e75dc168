-- ===== src/Overview/Deletion.antt =====
-- The deletion of a device and the change of its vehicle.
use gps_connector.Prelude.{
  ◌≡◌, refl, ◌⊎◌, inl, inr, Text, codes, Bool, true, false, ◌&&◌, not, List, map, none, some, find,
  has, text_eq, Bool-cases,
}
use gps_connector.Promise.{Settled, fulfilled, rejected}
use gps_connector.Client.{DeleteResult}
use gps_connector.Hooks.Overview.Latest.{imei_of, has-remove_record}
use gps_connector.Overview.{Page, deletion_settled, is_delete_error, deletion_done, deletion_failed}

abbrev imeis_of : Page → List Text
imeis_of page = map imei_of page.devices.records

-- Whether the server refused the deletion.
abbrev pub is_refused : Text → Settled (List DeleteResult) → Bool
is_refused imei (rejected _) = true
is_refused imei (fulfilled results) =
    is_delete_error (find (λ result. text_eq result.imei imei) results)

-- A deletion takes the device, and no other, out of the list unless it failed or the server answered with an
-- error for it; then the list is as it was, an error is shown and the confirmation stays open. In both
-- cases the confirmation is no longer busy.
pub deletion_settled_lem :
    (imei : Text) (call : Settled (List DeleteResult)) (page : Page)
    → let after = deletion_settled imei call page in
      (after.deletion.busy ≡ false)
      × ((is_refused imei call ≡ false)
            × (after.deletion.imei ≡ none)
            × ((t : Text)
                → has t (map imei_of after.devices.records)
                  ≡ (has t (map imei_of page.devices.records) && not (text_eq t imei)))
          ⊎ (is_refused imei call ≡ true)
            × (after.deletion.imei ≡ some imei)
            × (after.devices ≡ page.devices)
            × (after.action_error ≡ some (codes "Could not delete device")))
unfolding deletion_settled deletion_done deletion_failed
deletion_settled_lem imei (rejected e) page = (refl, inr (refl, refl, refl, refl))
deletion_settled_lem imei (fulfilled results) page =
    elim (Bool-cases (is_delete_error (find (λ result. text_eq result.imei imei) results))) [
      | inl e ↦ rw e (refl, inr (refl, refl, refl, refl))
      | inr e ↦ rw e (refl, inl (refl, refl, λ t. has-remove_record t imei page.devices))
    ]
