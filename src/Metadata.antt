-- ===== src/Metadata.antt =====
-- The CSV files with vehicle data: frontend/lib/metadata-csv.ts. `lower` is `toLowerCase`, `number` is
-- `Number` where the result is finite, `date` is `Date.parse` where the text is a date.
mod Tests
pub mod Rows
pub mod Cells
pub mod Fields
use gps_connector.Prelude.{
  ℕ, ℤ, suc, Text, String, codes, Bool, true, false, ◌&&◌, not, List, [], ◌∷◌, ◌++◌, map, reverse,
  Option, none, some, ◌==◌, if◌then◌else◌, filter, get_elem?, has, text_eq, trim, truthy, or_else,
}
use gps_connector.Client.{DeviceMetadata}
use gps_connector.Client.Calls.{is_blank}
use gps_connector.Imei.{is_fifteen_digits, strip_bom}
use gps_connector.Vehicle.{text_or_none, seconds_of}

pub data MetadataRow (Num : Type 0) : Type 0 where
  ok : (imei : Text) (metadata : DeviceMetadata Num ℤ) → MetadataRow Num
  unknown : (imei : Text) → MetadataRow Num
  invalid : (imei : Text) (reason : String) → MetadataRow Num

pub record ParsedMetadata (Num : Type 0) : Type 0 where
  pub rows : List (MetadataRow Num)
  pub columns : List Text

-- `text.split(/\r?\n/)`
unfoldable pub split_crlf : Text → Text → List Text
split_crlf line [] = line ∷ []
split_crlf line (c ∷ []) = if c == 0x0a then line ∷ [] ∷ [] else (line ++ c ∷ []) ∷ []
split_crlf line (c ∷ d ∷ s) =
    let at_lf = line ∷ split_crlf [] (d ∷ s) in
    let at_crlf = line ∷ split_crlf [] s in
    let longer = split_crlf (line ++ c ∷ []) (d ∷ s) in
    if c == 0x0a then at_lf else if c == 0x0d && d == 0x0a then at_crlf else longer

-- `line.split(separator)` for a separator of one character.
unfoldable pub split_cells : ℕ → Text → Text → List Text
split_cells separator cell [] = cell ∷ []
split_cells separator cell (c ∷ s) =
    let closed = cell ∷ split_cells separator [] s in
    let longer = split_cells separator (cell ++ c ∷ []) s in
    if c == separator then closed else longer

abbrev strip_quote : Text → Text
strip_quote [] = []
strip_quote (c ∷ s) = if c == b'"' then s else c ∷ s

-- `cell.trim().replace(/^"|"$/g, "")`
unfoldable pub clean_cell : Text → Text
clean_cell cell = reverse (strip_quote (reverse (strip_quote (trim cell))))

unfoldable pub split_line : Text → ℕ → List Text
split_line line separator = map clean_cell (split_cells separator [] line)

contains : ℕ → Text → Bool
contains c [] = false
contains c (d ∷ s) = let rest = contains c s in if d == c then true else rest

unfoldable pub detect_separator : Text → ℕ
unfolding contains
detect_separator header_line = if contains b';' header_line then b';' else b','

-- `columns.indexOf(name)`
unfoldable pub index_of : Text → List Text → Option ℕ
index_of name [] = none
index_of name (c ∷ cs) = elim (index_of name cs) [
  | none ↦ if text_eq c name then some 0 else none
  | some n ↦ if text_eq c name then some 0 else some (suc n)
]

-- `value.replace(",", ".")`, which replaces the first comma only.
unfoldable pub replace_comma : Text → Text
replace_comma [] = []
replace_comma (c ∷ s) = let rest = replace_comma s in if c == b',' then b'.' ∷ s else c ∷ rest

abbrev normalised : ℕ → Text → Text
normalised separator value = if separator == b';' then replace_comma value else value

abbrev rest_of : List Text → List Text
rest_of [] = []
rest_of (_ ∷ vs) = vs

abbrev first_of : List Text → Text
first_of [] = []
first_of (v ∷ _) = v

-- `cells[field]`, where the last column of a name overwrites those before it.
unfoldable pub cell_at : Text → List Text → List Text → Option Text
cell_at field [] values = none
cell_at field (column ∷ columns) values = elim (cell_at field columns (rest_of values)) [
  | some value ↦ some value
  | none ↦ if text_eq column field then some (first_of values) else none
]

-- `values[imeiIndex] ?? ""`
abbrev pub imei_cell : ℕ → List Text → Text
imei_cell imei_index values = or_else (get_elem? values imei_index) []

module _ {Num : Type 0} (number : Text → Option Num) (date : Text → Option ℤ) where
  text_field : List Text → List Text → String → Option Text
  text_field columns values field = text_or_none (or_else (cell_at (codes field) columns values) [])

  filled_number : ℕ → Option Text → Option Num
  filled_number separator none = none
  filled_number separator (some value) = number (normalised separator value)

  number_field : List Text → List Text → ℕ → String → Option Num
  unfolding text_field filled_number
  number_field columns values separator field =
      filled_number separator (text_field columns values field)

  filled_date : Option Text → Option ℤ
  filled_date none = none
  filled_date (some value) = seconds_of (date value)

  -- `rowToMetadata` of the cells that the columns and the values make.
  unfoldable pub row_to_metadata : List Text → List Text → ℕ → DeviceMetadata Num ℤ
  unfolding text_field number_field filled_date
  row_to_metadata columns values separator = record {
    plate = text_field columns values "plate";
    vehicle_id = text_field columns values "vehicle_id";
    make = text_field columns values "make";
    model = text_field columns values "model";
    vehicle_type = text_field columns values "vehicle_type";
    fuel_type = text_field columns values "fuel_type";
    fuel_usage = number_field columns values separator "fuel_usage";
    capacity = number_field columns values separator "capacity";
    cost = number_field columns values separator "cost";
    leasing_end_date = filled_date (text_field columns values "leasing_end_date");
    associated_location = text_field columns values "associated_location";
  }

  -- One round of the loop for a line with its IMEI cell: the row, and the set afterwards.
  unfoldable pub row_step :
      List Text → List Text → ℕ → List Text → List Text → Text → MetadataRow Num × List Text
  row_step known columns separator seen values imei =
      if not (is_fifteen_digits imei)
      then (invalid imei "Not 15 digits", seen)
      else if has imei seen
      then (invalid imei "Duplicate", seen)
      else if not (has imei known)
      then (unknown imei, imei ∷ seen)
      else (ok imei (row_to_metadata columns values separator), imei ∷ seen)

  unfoldable pub rows_from :
      List Text → List Text → ℕ → ℕ → List Text → List Text → List (MetadataRow Num)
  rows_from known columns separator imei_index seen [] = []
  rows_from known columns separator imei_index seen (line ∷ lines) =
      let values = split_line line separator in
      let (row, seen') =
        row_step known columns separator seen values (imei_cell imei_index values) in
      row ∷ rows_from known columns separator imei_index seen' lines

  table_of : (Text → Text) → List Text → Text → List Text → ParsedMetadata Num
  table_of lower known header lines =
      let separator = detect_separator header in
      let columns = map lower (split_line header separator) in
      elim (index_of (codes "imei") columns) [
        | none ↦ record { rows = []; columns = columns }
        | some imei_index ↦ record {
          rows = rows_from known columns separator imei_index [] lines;
          columns = columns;
        }
      ]

  parsed_lines : (Text → Text) → List Text → List Text → ParsedMetadata Num
  unfolding table_of
  parsed_lines lower known [] = record { rows = []; columns = [] }
  parsed_lines lower known (_ ∷ []) = record { rows = []; columns = [] }
  parsed_lines lower known (header ∷ line ∷ lines) = table_of lower known header (line ∷ lines)

  unfoldable pub parse_metadata_csv : (Text → Text) → Text → List Text → ParsedMetadata Num
  unfolding parsed_lines
  parse_metadata_csv lower text known =
      parsed_lines lower known
        (filter (λ line. not (is_blank line)) (split_crlf [] (strip_bom text)))
