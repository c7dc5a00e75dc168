-- ===== src/Overview/Attach.antt =====
-- The form for the vehicle of a device: frontend/app/register/attach-vehicle-dialog.tsx.
pub mod Fields
use gps_connector.Prelude.{
  ◌≡◌, refl, ◌⊎◌, inl, inr, Bool-cases, Text, codes, Bool, true, false, ◌&&◌, ◌||◌, not, Option,
  none, some, [], ◌∷◌, if◌then◌else◌, arith, trim, truthy, or_else,
}
use gps_connector.Vehicle.{Vehicle}

abbrev pub empty_vehicle : Vehicle
empty_vehicle = record {
  plate = [];
  id = [];
  make = [];
  model = [];
  vehicle_type = [];
  fuel_type = [];
  fuel_usage = [];
  capacity = [];
  cost = [];
  leasing_end = [];
  location = [];
}

pub record Form : Type 0 where
  pub draft : Vehicle
  pub saving : Bool
  pub save_error : Option Text
  pub open_ : Bool
  pub calendar_open : Bool

abbrev pub opened : Option Vehicle → Form
opened initial = record {
  draft = or_else initial empty_vehicle;
  saving = false;
  save_error = none;
  open_ = true;
  calendar_open = false;
}

-- `keyof Vehicle`
pub data Key : Type 0 where
  plate_key : Key
  id_key : Key
  make_key : Key
  model_key : Key
  vehicle_type_key : Key
  fuel_type_key : Key
  fuel_usage_key : Key
  capacity_key : Key
  cost_key : Key
  leasing_end_key : Key
  location_key : Key

unfoldable pub set_field : Key → Text → Vehicle → Vehicle
set_field plate_key t v = record v { plate = t }
set_field id_key t v = record v { id = t }
set_field make_key t v = record v { make = t }
set_field model_key t v = record v { model = t }
set_field vehicle_type_key t v = record v { vehicle_type = t }
set_field fuel_type_key t v = record v { fuel_type = t }
set_field fuel_usage_key t v = record v { fuel_usage = t }
set_field capacity_key t v = record v { capacity = t }
set_field cost_key t v = record v { cost = t }
set_field leasing_end_key t v = record v { leasing_end = t }
set_field location_key t v = record v { location = t }

unfoldable pub update : Key → Text → Form → Form
update key value form = record form { draft = set_field key value form.draft }

-- `parse(value, DATE_FORMAT, …)`, where `none` is an invalid date, on a text that is not empty
unfoldable pub parse_date : {Date : Type 0} → (Text → Option Date) → Text → Option Date
parse_date parse [] = none
parse_date parse (c ∷ s) = parse (c ∷ s)

abbrev text_of_date : {Date : Type 0} → (Date → Text) → Option Date → Text
text_of_date format none = []
text_of_date format (some date) = format date

unfoldable pub set_calendar_open : Bool → Form → Form
set_calendar_open calendar_open form = record form { calendar_open = calendar_open }

-- A date is chosen or given up in the calendar.
unfoldable pub select_leasing_end : {Date : Type 0} → (Date → Text) → Option Date → Form → Form
select_leasing_end format date form = record form {
  draft = record (form.draft) { leasing_end = text_of_date format date };
  calendar_open = false;
}

-- The text of the button that opens the calendar.
unfoldable pub leasing_text : {Date : Type 0} → (Date → Text) → (Text → Option Date) → Form → Text
leasing_text format parse form = elim (parse_date parse form.draft.leasing_end) [
  | none ↦ codes "Pick a date"
  | some date ↦ format date
]

unfoldable pub cleaned : Vehicle → Vehicle
cleaned v = record {
  plate = trim v.plate;
  id = trim v.id;
  make = trim v.make;
  model = trim v.model;
  vehicle_type = trim v.vehicle_type;
  fuel_type = trim v.fuel_type;
  fuel_usage = trim v.fuel_usage;
  capacity = trim v.capacity;
  cost = trim v.cost;
  leasing_end = trim v.leasing_end;
  location = trim v.location;
}

unfoldable pub can_save : Vehicle → Bool
can_save draft = truthy (trim draft.plate) && truthy (trim draft.id)

-- `handleSubmit` up to the call of `onSave`: the vehicle that it is called with, if it is.
unfoldable pub handle_submit : Form → Form × Option Vehicle
handle_submit form =
    if not (can_save form.draft) || form.saving
    then (form, none)
    else (record form { saving = true; save_error = none }, some (cleaned form.draft))

-- `handleSubmit` once `onSave` has settled, given whether it returned.
unfoldable pub save_settled : Bool → Form → Form
save_settled true form = record form { open_ = false; saving = false }
save_settled false form = record form {
  save_error = some (codes "Could not save vehicle");
  saving = false;
}

unfoldable pub handle_open_change : Bool → Form → Form
handle_open_change next form = if form.saving then form else record form { open_ = next }

submit_cases :
    (form : Form)
    → (handle_submit form ≡ (form, none))
      ⊎ ((can_save form.draft ≡ true)
          × (handle_submit form
              ≡ (record form { saving = true; save_error = none }, some (cleaned form.draft))))
unfolding handle_submit
submit_cases form = elim (Bool-cases (not (can_save form.draft) || form.saving)) [
  | inl e ↦ inl (rw (e, if◌then◌else◌) refl)
  | inr e ↦ inr (ground arith, ground arith)
]

saving_refuses : (form : Form) → form.saving ≡ true → handle_submit form ≡ (form, none)
unfolding handle_submit
saving_refuses form h = ground arith

-- A vehicle that is handed over has a plate and an identifier that are not empty, it is the draft without the
-- space around its fields, and until the call has settled the form neither hands over another nor closes.
pub handle_submit-saves :
    (form : Form) (vehicle : Vehicle)
    → (handle_submit form).1 ≡ some vehicle
    → let after = (handle_submit form).0 in
      (truthy vehicle.plate ≡ true)
      × (truthy vehicle.id ≡ true)
      × (vehicle ≡ cleaned form.draft)
      × (handle_submit after ≡ (after, none))
      × ((next : Bool) → handle_open_change next after ≡ after)
unfolding can_save handle_open_change cleaned
handle_submit-saves form vehicle h = elim (submit_cases form) [
  | inl e ↦ cc (e, h)
  | inr (c, e) ↦
      let same = the_same vehicle h e in
      rw (same, e) (ground arith, ground arith, refl, saving_refuses _ refl, λ next. refl)
]
  where
    the_same :
        (vehicle : Vehicle)
        → (handle_submit form).1 ≡ some vehicle
        → handle_submit form
          ≡ (record form { saving = true; save_error = none }, some (cleaned form.draft))
        → vehicle ≡ cleaned form.draft
    the_same vehicle h e = ground arith
