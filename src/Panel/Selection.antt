-- ===== src/Panel/Selection.antt =====
-- The panel and the page together: the choice of a vehicle.
use gps_connector.Prelude.{
  ◌≡◌, refl, Text, Bool, true, false, List, [], ◌∷◌, some, find, text_eq, ◌||◌, trim, text_eq_sound,
  arith, Bool-cases, inl, inr, ◌≢◌,
}
use gps_connector.Locations.{VehicleLocation, PendingDevice}
use gps_connector.MapView.Days.{
  Page, focus_vehicle, clear_vehicle, active_vehicle, vehicle_with, shown_vehicles,
}
use gps_connector.Panel.Details.{Formats}
use gps_connector.Panel.View.Shown.{panel_details, panel_no_details}
use gps_connector.Panel.View.{Search, details, handle_select, has_query, panel_content, panel_props}

module _ {Num : Type 0} where
  abbrev pub has_vehicle : Text → List (VehicleLocation Num) → Bool
  has_vehicle id [] = false
  has_vehicle id (v ∷ vs) = text_eq v.id id || has_vehicle id vs

  pub find_with :
      (id : Text) (vs : List (VehicleLocation Num))
      → has_vehicle id vs ≡ true
      → (w : VehicleLocation Num) × (find (λ v. text_eq v.id id) vs ≡ some w) × (w.id ≡ id)
  find_with id [] h = cc
  find_with id (v ∷ vs) h = elim (Bool-cases (text_eq v.id id)) [
    | inl e ↦ (v, rw e refl, text_eq_sound v.id id e)
    | inr e ↦ let (w, f, i) = find_with id vs (ground arith) in (w, rw e f, i)
  ]

  -- The page finds the same vehicle as the panel, by an id that is not empty.
  pub active_with :
      (p : Page Num) (v w : VehicleLocation Num)
      → find (λ u. text_eq u.id v.id) (shown_vehicles p) ≡ some w
      → v.id ≢ []
      → active_vehicle (focus_vehicle v p) ≡ some w
  unfolding active_vehicle focus_vehicle
  active_with p v w found full = by v.id found full
    where
      by :
          (id : Text)
          → find (λ u. text_eq u.id id) (shown_vehicles p) ≡ some w
          → id ≢ []
          → vehicle_with (some id) (shown_vehicles p) ≡ some w
      by [] found full = absurd (full refl)
      by (c ∷ s) found full = found

  module _ (lower : Text → Text) (locale_le : Text → Text → Bool) (fm : Formats Num) where
    no_query : (s : Search) → lower [] ≡ [] → has_query lower (handle_select s) ≡ false
    unfolding has_query handle_select trim
    no_query s e = rw e refl

    -- A vehicle of the list that is chosen, whatever is in the search field then, is the one whose details the
    -- panel shows next and the one that is active on the map, unless its id is empty; and once the
    -- choice is given up no details are shown. It is assumed of `toLowerCase` that it maps the empty
    -- text to itself.
    pub handle_select-focus_vehicle :
        (pending : List PendingDevice) (devices_loaded : Bool) (s : Search) (p : Page Num)
        (v : VehicleLocation Num)
        → lower [] ≡ []
        → has_vehicle v.id (shown_vehicles p) ≡ true
        → ((w : VehicleLocation Num) × (w.id ≡ v.id)
            × (panel_content lower locale_le fm
                  (handle_select s)
                  (panel_props pending devices_loaded (focus_vehicle v p))
                ≡ details w)
            × (v.id ≢ [] → active_vehicle (focus_vehicle v p) ≡ some w))
          × ((w : VehicleLocation Num)
              → panel_content lower locale_le fm s
                  (panel_props pending devices_loaded (clear_vehicle p))
                ≢ details w)
    unfolding panel_props focus_vehicle clear_vehicle
    handle_select-focus_vehicle pending devices_loaded s p v lower_empty h =
        let (w, found, same) = find_with v.id (shown_vehicles p) h in
        (
          (
            w,
            same,
            panel_details lower locale_le fm (handle_select s)
                (panel_props pending devices_loaded (focus_vehicle v p)) w (no_query s lower_empty)
                found,
            active_with p v w found,
          ),
          panel_no_details lower locale_le fm s
              (panel_props pending devices_loaded (clear_vehicle p)) refl,
        )
