-- ===== src/Overview/Attach/Fields/Wiring.antt =====
-- How the fields of the form for a vehicle are wired to its draft.
use gps_connector.Prelude.{
  ◌≡◌, refl, ap, Text, ◌||◌, not, Option, some, List, [], ◌∷◌, map, All, is_none, inl, inr,
  Bool-cases, if◌then◌else◌, text_eq,
}
use gps_connector.Vehicle.{Vehicle}
use gps_connector.Overview.Attach.{
  Form, update, set_field, parse_date, leasing_text, can_save, handle_submit, select_leasing_end,
}
use gps_connector.Overview.Attach.Fields.{
  Control, input, calendar, Field, fields, attach_vehicle_dialog,
}

module _ {Date : Type 0} (format : Date → Text) (parse : Text → Option Date) where
  -- The text that a field shows.
  abbrev pub text_of : Control Date → Text
  text_of (input _ _ value _) = value
  text_of (calendar _ _ button _) = button

  -- What the fields show, where the field of this name shows this text.
  abbrev pub texts_but : Text → Text → List (Field Date) → List Text
  texts_but id t fs = map (λ (f : Field Date). if text_eq f.id id then t else text_of f.control) fs

  abbrev pub texts : List (Field Date) → List Text
  texts fs = map (λ (f : Field Date). text_of f.control) fs

  -- After a text is typed into the field, or a date chosen in it, it shows that and the others what they did.
  abbrev IsWiredAs : Form → Text → Control Date → Type 0
  IsWiredAs form id (input _ _ _ on_change) =
      (t : Text)
      → texts (fields format parse (on_change t form)) ≡ texts_but id t (fields format parse form)
  IsWiredAs form id (calendar _ _ _ on_select) =
      (d : Date)
      → texts (fields format parse (on_select (some d) form))
        ≡ texts_but id (format d) (fields format parse form)

  abbrev shown_with : Vehicle → Text → List Text
  shown_with v t =
      v.plate ∷ v.id ∷ v.make ∷ v.model ∷ v.vehicle_type ∷ v.fuel_type ∷ v.fuel_usage ∷ v.capacity
      ∷ v.cost ∷ t ∷ v.location ∷ []

  leasing_text_lem :
      (d : Date) (form : Form)
      → parse_date parse form.draft.leasing_end ≡ some d
      → leasing_text format parse form ≡ format d
  unfolding leasing_text
  leasing_text_lem d form e = rw (e, leasing_text) refl

  abbrev pub IsWired : Form → Field Date → Type 0
  IsWired form f = IsWiredAs form f.id f.control

  -- Where the date library reads each date back that it has written: after a text is typed into a field of
  -- the form, or a date is chosen for the field with the calendar, that field shows the text, or the date as
  -- it is written, and every other field shows what it showed before.
  pub fields-IsWired :
      (form : Form)
      → ((d : Date) → parse_date parse (format d) ≡ some d)
      → All (IsWired form) (fields format parse form)
  unfolding fields update set_field select_leasing_end leasing_text text_eq
  fields-IsWired form h = (
    λ t. refl,
    (
      λ t. refl,
      (
        λ t. refl,
        (
          λ t. refl,
          (
            λ t. refl,
            (
              λ t. refl,
              (
                λ t. refl,
                (
                  λ t. refl,
                  (
                    λ t. refl,
                    (
                      λ d.
                          ap (shown_with form.draft)
                            (leasing_text_lem d (select_leasing_end format (some d) form) (h d)),
                      (λ t. refl, tt),
                    ),
                  ),
                ),
              ),
            ),
          ),
        ),
      ),
    ),
  )

  -- The button that saves is disabled just when a submission would hand over nothing.
  pub save_disabled_lem :
      (imei : Text) (form : Form)
      → (attach_vehicle_dialog format parse imei form).save_disabled
        ≡ is_none (handle_submit form).1
  unfolding attach_vehicle_dialog handle_submit
  save_disabled_lem imei form = elim (Bool-cases (not (can_save form.draft) || form.saving)) [
    | inl e ↦ rw e refl
    | inr e ↦ rw e refl
  ]
