-- ===== src/Overview.antt =====
-- The page with all devices: frontend/app/overview/overview-table.tsx. A handler has two parts: up to
-- the call of the server, and once that has settled.
mod Tests
pub mod Deletion
pub mod Attach
pub mod Columns
pub mod Import
use gps_connector.Prelude.{
  Text, String, codes, Bool, true, false, List, [], ◌∷◌, map, Option, none, some, find, text_eq,
  if◌then◌else◌, is_some,
}
use gps_connector.Promise.{Settled, fulfilled, rejected}
use gps_connector.Client.{
  DeleteStatus, DeleteResult, PatchStatus, PatchResult, deleted, not_found, error,
}
use gps_connector.Register.{DeviceRecord}
use gps_connector.Vehicle.{Vehicle}
use gps_connector.Hooks.Overview

pub record ActionState : Type 0 where
  pub imei : Option Text
  pub busy : Bool

abbrev pub idle : ActionState
idle = record { imei = none; busy = false }

-- The variables of the page, with the state of its hook.
pub record Page : Type 0 where
  pub devices : Overview.State
  pub deletion : ActionState
  pub attach_target : Option Text
  pub import_open : Bool
  pub action_error : Option Text

abbrev pub initial : Page
initial = record {
  devices = Overview.initial;
  deletion = idle;
  attach_target = none;
  import_open = false;
  action_error = none;
}

-- The two entries of a row's menu.
abbrev pub on_edit_vehicle : Text → Page → Page
on_edit_vehicle imei page = record page { attach_target = some imei }

abbrev pub on_delete : Text → Page → Page
on_delete imei page = record page { deletion = record { imei = some imei; busy = false } }

-- `handleDeleteConfirm` up to the call: the IMEI that is to be deleted, if one is.
unfoldable pub handle_delete_confirm : Page → Page × Option Text
handle_delete_confirm page = elim page.deletion.imei [
  | none ↦ (page, none)
  | some [] ↦ (page, none)
  | some (c ∷ s) ↦ (
    record page { deletion = record { imei = some (c ∷ s); busy = true }; action_error = none },
    some (c ∷ s),
  )
]

deletion_done : Text → Page → Page
deletion_done imei page = record page {
  devices = Overview.remove_record imei page.devices;
  deletion = idle;
}

deletion_failed : Text → Page → Page
deletion_failed imei page = record page {
  deletion = record { imei = some imei; busy = false };
  action_error = some (codes "Could not delete device");
}

-- `result?.status === "error"`
unfoldable pub is_delete_error : Option DeleteResult → Bool
is_delete_error none = false
is_delete_error (some result) = elim result.status [ DeleteStatus.error ↦ true | _ ↦ false ]

-- `handleDeleteConfirm` once `deleteDevices` has settled.
unfoldable pub deletion_settled : Text → Settled (List DeleteResult) → Page → Page
unfolding deletion_done deletion_failed is_delete_error
deletion_settled imei (rejected _) page = deletion_failed imei page
deletion_settled imei (fulfilled results) page =
    if is_delete_error (find (λ result. text_eq result.imei imei) results)
    then deletion_failed imei page
    else deletion_done imei page

-- `onOpenChange` of the confirmation.
abbrev pub deletion_open_change : Bool → Page → Page
deletion_open_change true page = page
deletion_open_change false page = record page { deletion = idle }

is_patch_error : Option PatchResult → Bool
is_patch_error none = false
is_patch_error (some result) = elim result.status [ PatchStatus.error ↦ true | _ ↦ false ]

abbrev with_vehicle : Vehicle → DeviceRecord → DeviceRecord
with_vehicle vehicle r = record r { vehicle = some vehicle }

saved : Text → Vehicle → Page → Page
saved imei vehicle page = record page {
  devices = Overview.update_record imei (with_vehicle vehicle) page.devices;
}

-- `onSave` once `patchDeviceMetadata` has settled: whether it returned.
unfoldable pub save_settled : Text → Vehicle → Settled (List PatchResult) → Page → Page × Bool
unfolding is_patch_error saved
save_settled imei vehicle (rejected _) page = (page, false)
save_settled imei vehicle (fulfilled results) page =
    if is_patch_error (find (λ result. text_eq result.imei imei) results)
    then (page, false)
    else (saved imei vehicle page, true)

-- `targetVehicle`
unfoldable pub target_vehicle : Page → Option Vehicle
target_vehicle page = elim page.attach_target [
  | none ↦ none
  | some [] ↦ none
  | some (c ∷ s) ↦ elim (find (λ r. text_eq r.imei (c ∷ s)) page.devices.records) [
    | none ↦ none
    | some r ↦ r.vehicle
  ]
]

-- What the page shows in the place of the table.
pub data View : Type 0 where
  loading_view : View
  error_view : (message : Text) → View
  empty_view : View
  table_view : List DeviceRecord → View

view_of_records : List DeviceRecord → View
view_of_records [] = empty_view
view_of_records (r ∷ rs) = table_view (r ∷ rs)

view_of_error : Option Text → List DeviceRecord → View
unfolding view_of_records
view_of_error none records = view_of_records records
view_of_error (some []) records = view_of_records records
view_of_error (some (c ∷ s)) records = error_view (c ∷ s)

unfoldable pub view : Overview.State → View
unfolding view_of_error
view s = if s.loading then loading_view else view_of_error s.error s.records
