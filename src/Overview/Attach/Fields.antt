-- ===== src/Overview/Attach/Fields.antt =====
-- The fields of the form for the vehicle of a device, and what the dialog shows: the markup of
-- frontend/app/register/attach-vehicle-dialog.tsx, as data.
pub mod Wiring
use gps_connector.Prelude.{
  Text, String, codes, Bool, true, false, ◌||◌, not, Option, none, some, List, [], ◌∷◌, ◌++◌,
}
use gps_connector.Overview.Attach.{
  Key, plate_key, id_key, make_key, model_key, vehicle_type_key, fuel_type_key, fuel_usage_key,
  capacity_key, cost_key, leasing_end_key, location_key, Form, update, parse_date, leasing_text,
  can_save, select_leasing_end,
}

-- The `type`, `inputMode` and `step` of an input.
pub data InputKind : Type 0 where
  text : InputKind
  decimal_number : InputKind
  whole_number : InputKind

-- An input with its value and its change handler, or the button that opens the calendar: whether that is
-- open, the date that is selected in it, the text of the button, and the handler of a choice.
pub data Control (Date : Type 0) : Type 0 where
  input :
      InputKind
      → (required : Bool) → (value : Text) → (on_change : Text → Form → Form) → Control Date
  calendar :
      (open_ : Bool)
      → (selected : Option Date) → (button : Text) → (on_select : Option Date → Form → Form)
      → Control Date

pub record Field (Date : Type 0) : Type 0 where
  pub id : Text
  pub label : Text
  pub control : Control Date

-- The dialog: its fields, and whether its buttons are disabled.
pub record Shown (Date : Type 0) : Type 0 where
  pub description : Text
  pub fields : List (Field Date)
  pub alert : Option Text
  pub cancel_disabled : Bool
  pub save_disabled : Bool
  pub has_spinner : Bool

-- `saveError && …`
abbrev alert_of : Option Text → Option Text
alert_of (some (c ∷ error)) = some (c ∷ error)
alert_of _ = none

module _ {Date : Type 0} where
  abbrev input_field : String → String → InputKind → Bool → Key → Text → Field Date
  input_field id label kind required key value = record {
    id = codes id;
    label = codes label;
    control = input kind required value (update key);
  }

  unfoldable pub fields : (Date → Text) → (Text → Option Date) → Form → List (Field Date)
  fields format parse form =
      input_field "vehicle-plate" "License plate" text true plate_key form.draft.plate
      ∷ input_field "vehicle-id" "Internal ID" text true id_key form.draft.id
      ∷ input_field "vehicle-make" "Make" text false make_key form.draft.make
      ∷ input_field "vehicle-model" "Model" text false model_key form.draft.model
      ∷ input_field "vehicle-type" "Vehicle type" text false vehicle_type_key
          form.draft.vehicle_type
      ∷ input_field "vehicle-fuel-type" "Fuel type" text false fuel_type_key form.draft.fuel_type
      ∷ input_field "vehicle-fuel-usage" "Fuel usage (Wh/km or km/L)" decimal_number false
          fuel_usage_key form.draft.fuel_usage
      ∷ input_field "vehicle-capacity" "Capacity (range, km)" whole_number false capacity_key
          form.draft.capacity
      ∷ input_field "vehicle-cost" "Cost" whole_number false cost_key form.draft.cost
      ∷ record {
        id = codes "vehicle-leasing-end";
        label = codes "Leasing end date";
        control =
            calendar form.calendar_open (parse_date parse form.draft.leasing_end)
              (leasing_text format parse form) (select_leasing_end format);
      }
      ∷ input_field "vehicle-location" "Associated location" text false location_key
          form.draft.location
      ∷ []

  -- What `AttachVehicleDialog` returns for the device, once it is open.
  unfoldable pub attach_vehicle_dialog :
      (Date → Text) → (Text → Option Date) → Text → Form → Shown Date
  attach_vehicle_dialog format parse imei form = record {
    description = codes "Link a vehicle to IMEI " ++ imei ++ codes ".";
    fields = fields format parse form;
    alert = alert_of form.save_error;
    cancel_disabled = form.saving;
    save_disabled = not (can_save form.draft) || form.saving;
    has_spinner = form.saving;
  }
