-- ===== src/Metadata/Fields.antt =====
-- Which fields of a vehicle a line of a CSV file sets: `rowToMetadata` of frontend/lib/metadata-csv.ts.
use gps_connector.Prelude.{
  ℕ, ℤ, ◌≡◌, refl, ap, ◌∙◌, inl, inr, Text, String, codes, List, [], ◌∷◌, map, Option, none, some,
  has, All, Bool-cases, join, if◌then◌else◌, text_eq, text_eq_sound,
}
use gps_connector.Client.{DeviceMetadata}
use gps_connector.Vehicle.{text_or_none, seconds_of}
use gps_connector.Metadata.{
  cell_at, text_field, number_field, filled_number, filled_date, normalised, row_to_metadata,
  split_line,
}
use gps_connector.Metadata.Cells.{Written, write, IsWritten, IsSeparator, split_line-write}

abbrev in_column : List Text → (Text → Text) → Text → Option Text
in_column columns cell field = if has field columns then some (cell field) else none

-- The order of the columns, and the columns of other names, make no difference to a cell.
cell_at_lem :
    (field : Text) (columns : List Text) (cell : Text → Text)
    → cell_at field columns (map cell columns) ≡ in_column columns cell field
unfolding cell_at has
cell_at_lem field [] cell = refl
cell_at_lem field (column ∷ columns) cell = elim (Bool-cases (text_eq column field)) [
  | inl e ↦ elim (Bool-cases (has field columns)) [
    | inl f ↦ rw (cell_at_lem field columns cell, f, e) (ap some refl)
    | inr f ↦
        rw (cell_at_lem field columns cell, f, e)
          (ap (λ t. some (cell t)) (text_eq_sound column field e))
  ]
  | inr e ↦ elim (Bool-cases (has field columns)) [
    | inl f ↦ rw (cell_at_lem field columns cell, f, e) refl
    | inr f ↦ rw (cell_at_lem field columns cell, f, e) refl
  ]
]

-- The text of a field that has a column with a cell that is not empty.
abbrev pub set_text : List Text → (Text → Text) → String → Option Text
set_text columns cell field =
    if has (codes field) columns then text_or_none (cell (codes field)) else none

module _ {Num : Type 0} (number : Text → Option Num) (date : Text → Option ℤ) where
  text_field_lem :
      (columns : List Text) (cell : Text → Text) (field : String)
      → text_field number date columns (map cell columns) field ≡ set_text columns cell field
  unfolding text_field
  text_field_lem columns cell field =
      rw (cell_at_lem (codes field) columns cell)
        (elim (Bool-cases (has (codes field) columns)) [ inl e ↦ rw e refl | inr e ↦ rw e refl ])

  abbrev pub set_number : ℕ → Option Text → Option Num
  set_number separator none = none
  set_number separator (some value) = number (normalised separator value)

  abbrev pub set_date : Option Text → Option ℤ
  set_date none = none
  set_date (some value) = seconds_of (date value)

  -- The fields of a vehicle, given the text that is set of each.
  abbrev pub metadata_of : (String → Option Text) → ℕ → DeviceMetadata Num ℤ
  metadata_of texts separator = record {
    plate = texts "plate";
    vehicle_id = texts "vehicle_id";
    make = texts "make";
    model = texts "model";
    vehicle_type = texts "vehicle_type";
    fuel_type = texts "fuel_type";
    fuel_usage = set_number separator (texts "fuel_usage");
    capacity = set_number separator (texts "capacity");
    cost = set_number separator (texts "cost");
    leasing_end_date = set_date (texts "leasing_end_date");
    associated_location = texts "associated_location";
  }

  set_number_lem :
      (separator : ℕ) (text : Option Text)
      → filled_number number date separator text ≡ set_number separator text
  unfolding filled_number
  set_number_lem separator none = refl
  set_number_lem separator (some value) = refl

  set_date_lem : (text : Option Text) → filled_date number date text ≡ set_date text
  unfolding filled_date
  set_date_lem none = refl
  set_date_lem (some value) = refl

  described_lem :
      (columns : List Text) (cell : Text → Text) (separator : ℕ)
      → row_to_metadata number date columns (map cell columns) separator
        ≡ metadata_of (set_text columns cell) separator
  unfolding row_to_metadata number_field text_field
  described_lem columns cell separator = simp (set_number_lem, set_date_lem, text_field_lem) refl

  -- A line whose cells are written in quotes, without the separator in them, sets exactly the fields that have
  -- a column with a cell that is not empty, each to that cell, whatever the order of the columns is and
  -- what other columns there are; of these, numbers and dates that cannot be read are left unset too.
  pub row_to_metadata-write :
      (columns : List Text) (cell : Text → Text) (separator : ℕ) (w : Written) (ws : List Written)
      → IsSeparator separator
      → All (IsWritten separator) (w ∷ ws)
      → map (λ (x : Written). x.text) (w ∷ ws) ≡ map cell columns
      → row_to_metadata number date columns
          (split_line (join (separator ∷ []) (map write (w ∷ ws))) separator)
          separator
        ≡ metadata_of (set_text columns cell) separator
  row_to_metadata-write columns cell separator w ws sep h e =
      ap (λ values. row_to_metadata number date columns values separator)
        (split_line-write separator w ws sep h ∙ e)
      ∙ described_lem columns cell separator
