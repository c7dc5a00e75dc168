-- ===== src/Panel/View.antt =====
-- The panel as a whole: `MapPanel` in frontend/components/map-panel.tsx. `lower` is `toLowerCase`, and
-- `locale_le` is as in Panel.
pub mod Shown
use gps_connector.Prelude.{
  ℕ, ltb, Text, Bool, true, false, ◌&&◌, ◌||◌, not, List, [], ◌∷◌, map, Option, none, some, find,
  if◌then◌else◌, truthy, text_eq, length, ◌==◌,
}
use gps_connector.Locations.{VehicleLocation, PendingDevice}
use gps_connector.MapView.Days.{Page, shown_vehicles, shown_pending, list_loading, list_error}
use gps_connector.Panel.{
  StatusFilter, all, trimmed_query, visible_vehicles, visible_pending, list_empty_message,
}
use gps_connector.Panel.Details.{Formats, Row, vehicle_row, pending_row}

pub record Search : Type 0 where
  pub query : Text
  pub status_filter : StatusFilter

abbrev pub no_search : Search
no_search = record { query = []; status_filter = all }

unfoldable pub set_query : Text → Search → Search
set_query query s = record s { query = query }

unfoldable pub set_status_filter : StatusFilter → Search → Search
set_status_filter status_filter s = record s { status_filter = status_filter }

-- The effect that runs when the active vehicle changes.
unfoldable pub on_active : Option Text → Search → Search
on_active none s = s
on_active (some id) s = record s { query = [] }

-- `handleSelect`, before the page is told.
unfoldable pub handle_select : Search → Search
handle_select s = record s { query = [] }

unfoldable pub has_query : (Text → Text) → Search → Bool
has_query lower s = truthy (trimmed_query lower s.query)

-- What the panel is given by the page.
pub record Props (Num : Type 0) : Type 0 where
  pub vehicles : List (VehicleLocation Num)
  pub pending_devices : List PendingDevice
  pub active_vehicle_id : Option Text
  pub is_current_day : Bool
  pub list_loading : Bool
  pub list_error : Bool

-- The details of a vehicle, a spinner, an error, a message for an empty list, or the rows.
pub data Content (Num : Type 0) : Type 0 where
  details : VehicleLocation Num → Content Num
  spinner : Content Num
  failed : Content Num
  message : Text → Content Num
  rows : List Row → List (Text × Option Text) → Content Num

module _ {Num : Type 0} where
  -- `vehicles.find((vehicle) => vehicle.id === activeVehicleId) ?? null`
  abbrev pub with_id : Option Text → List (VehicleLocation Num) → Option (VehicleLocation Num)
  with_id none vehicles = none
  with_id (some id) vehicles = find (λ v. text_eq v.id id) vehicles

  -- The vehicle whose details are shown.
  unfoldable pub detailed :
      Bool → Option Text → List (VehicleLocation Num) → Option (VehicleLocation Num)
  detailed true active vehicles = none
  detailed false active vehicles = with_id active vehicles

  module _ (lower : Text → Text) (locale_le : Text → Text → Bool) (fm : Formats Num) where
    abbrev pub listed :
        List (VehicleLocation Num) → List PendingDevice → Search → Props Num → Content Num
    listed [] [] s p = message (
        list_empty_message (has_query lower s) s.status_filter (ltb 0 (length p.vehicles))
          p.is_current_day)
    listed vehicles pending s p =
        rows (map (vehicle_row fm p.active_vehicle_id p.is_current_day) vehicles)
          (map pending_row pending)

    pub list_content : Search → Props Num → Content Num
    list_content s p =
        if p.list_loading
        then spinner
        else if p.list_error
        then failed
        else listed (visible_vehicles lower locale_le s.status_filter s.query p.vehicles)
            (visible_pending lower s.status_filter s.query p.pending_devices) s p

    -- What `MapPanel` shows under the search field.
    unfoldable pub panel_content : Search → Props Num → Content Num
    unfolding list_content
    panel_content s p = elim (detailed (has_query lower s) p.active_vehicle_id p.vehicles) [
      | some v ↦ details v
      | none ↦ list_content s p
    ]

    -- Whether the tabs of the status are there.
    unfoldable pub has_tabs : Search → Props Num → Bool
    has_tabs s p = elim (detailed (has_query lower s) p.active_vehicle_id p.vehicles) [
      | some v ↦ false
      | none ↦ true
    ]

-- What the page gives the panel: its vehicles and the devices without a position.
unfoldable pub panel_props : {Num : Type 0} → List PendingDevice → Bool → Page Num → Props Num
panel_props pending devices_loaded p = record {
  vehicles = shown_vehicles p;
  pending_devices = shown_pending p.is_current_day pending;
  active_vehicle_id = p.active_vehicle_id;
  is_current_day = p.is_current_day;
  list_loading = list_loading p.is_current_day devices_loaded p.day_state;
  list_error = list_error p.is_current_day p.day_state;
}
