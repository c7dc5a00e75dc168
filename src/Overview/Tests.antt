-- ===== src/Overview/Tests.antt =====
-- The form for a vehicle at a draft with space around its plate.
use gps_connector.Prelude.{
  ◌≡◌, refl, codes, Text, Bool, true, false, All, Option, none, some, trim, is_space, text_eq,
  if◌then◌else◌,
}
use gps_connector.Vehicle.{Vehicle}
use gps_connector.Overview.Attach
use gps_connector.Overview.Attach.{empty_vehicle, cleaned, parse_date}
use gps_connector.Overview.Attach.Fields.{fields}
use gps_connector.Overview.Attach.Fields.Wiring.{IsWired, fields-IsWired}

abbrev draft : Vehicle
draft = record empty_vehicle { plate = codes " AB12345 "; id = codes "7" }

abbrev form : Attach.Form
form = Attach.opened (some draft)

saves_draft : (Attach.handle_submit form).1 ≡ some (cleaned draft)
unfolding Attach.handle_submit Attach.can_save trim is_space
saves_draft = refl

-- Two dates.
abbrev format : Bool → Text
format true = codes "2025-01-31"
format false = codes "2025-02-01"

abbrev parse : Text → Option Bool
parse s =
    if text_eq s (format true)
    then some true
    else if text_eq s (format false)
    then some false
    else none

parse-format : (d : Bool) → parse_date parse (format d) ≡ some d
unfolding parse_date text_eq
parse-format true = refl
parse-format false = refl

fields-IsWired_example : All (IsWired format parse form) (fields format parse form)
fields-IsWired_example = fields-IsWired format parse form parse-format
