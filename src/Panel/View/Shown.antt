-- ===== src/Panel/View/Shown.antt =====
-- When the panel shows the details of a vehicle.
use gps_connector.Prelude.{
  ◌≡◌, ◌≢◌, refl, Text, Bool, true, false, List, [], ◌∷◌, Option, none, some, if_intro,
}
use gps_connector.Locations.{VehicleLocation, PendingDevice}
use gps_connector.Panel.{visible_vehicles, visible_pending}
use gps_connector.Panel.Details.{Formats}
use gps_connector.Panel.View.{
  Search, Props, Content, details, spinner, failed, with_id, detailed, has_query, listed,
  list_content, panel_content,
}

detailed-none :
    {Num : Type 0} (has_query : Bool) (active : Option Text) (vehicles : List (VehicleLocation Num))
    → active ≡ none
    → detailed has_query active vehicles ≡ none
unfolding detailed
detailed-none true active vehicles e = refl
detailed-none false active vehicles e = rw e refl

module _ {Num : Type 0} (lower : Text → Text) (locale_le : Text → Text → Bool)
    (fm : Formats Num) where
  pub panel_details :
      (s : Search) (p : Props Num) (w : VehicleLocation Num)
      → has_query lower s ≡ false
      → with_id p.active_vehicle_id p.vehicles ≡ some w
      → panel_content lower locale_le fm s p ≡ details w
  unfolding detailed panel_content
  panel_details s p w q e =
      let d : detailed (has_query lower s) p.active_vehicle_id p.vehicles ≡ some w = rw q e in
      rw (d, panel_content) refl

  HasNoDetails : Content Num → Type 0
  HasNoDetails c = (w : VehicleLocation Num) → c ≢ details w

  listed-HasNoDetails :
      (vs : List (VehicleLocation Num)) (ds : List PendingDevice) (s : Search) (p : Props Num)
      → HasNoDetails (listed lower locale_le fm vs ds s p)
  unfolding HasNoDetails panel_content
  listed-HasNoDetails [] [] s p w e = cc
  listed-HasNoDetails [] (d ∷ ds) s p w e = cc
  listed-HasNoDetails (v ∷ vs) ds s p w e = cc

  list_content-HasNoDetails :
      (s : Search) (p : Props Num) → HasNoDetails (list_content lower locale_le fm s p)
  unfolding list_content HasNoDetails
  list_content-HasNoDetails s p =
      if_intro HasNoDetails p.list_loading spinner _ (λ _ w e. cc)
        (λ _.
          if_intro HasNoDetails p.list_error failed _ (λ _ w e. cc)
            (λ _.
              listed-HasNoDetails
                (visible_vehicles lower locale_le s.status_filter s.query p.vehicles)
                (visible_pending lower s.status_filter s.query p.pending_devices) s p))

  pub panel_no_details :
      (s : Search) (p : Props Num)
      → p.active_vehicle_id ≡ none
      → (w : VehicleLocation Num) → panel_content lower locale_le fm s p ≢ details w
  unfolding HasNoDetails panel_content
  panel_no_details s p e =
      rw (detailed-none (has_query lower s) p.active_vehicle_id p.vehicles e, panel_content)
        (list_content-HasNoDetails s p)
