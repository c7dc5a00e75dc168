-- ===== src/Metadata/Tests.antt =====
-- The theorems about metadata-csv.ts at a concrete file.
use gps_connector.Prelude.{
  ℕ, ℤ, ◌≡◌, refl, codes, Text, List, [], ◌∷◌, ◌++◌, map, filter, not, Option, some, none, All,
  Distinct, join, trim, is_space, text_eq, if◌then◌else◌,
}
use gps_connector.Client.Calls.{is_blank}
use gps_connector.Imei.{strip_bom}
use gps_connector.Metadata.{
  row_to_metadata, parse_metadata_csv, split_crlf, split_line, split_cells, clean_cell,
  detect_separator, index_of, imei_cell,
}
use gps_connector.Metadata.Cells.{Written, write, IsWritten, IsSeparator}
use gps_connector.Metadata.Fields.{set_text, metadata_of, row_to_metadata-write}
use gps_connector.Metadata.Rows.{
  imei_of, ok_imeis, IsKnown, parse_metadata_csv-IsKnown, parse_metadata_csv-lines,
}

abbrev no_number : Text → Option ℕ
no_number s = none

abbrev no_date : Text → Option ℤ
no_date s = none

abbrev as_is : Text → Text
as_is s = s

abbrev header : Text
header = codes "plate;imei"

abbrev line : Text
line = codes "AB12345;490154203237518"

abbrev file : Text
file = header ++ 0x0d ∷ 0x0a ∷ line

abbrev known : List Text
known = codes "490154203237518" ∷ []

parse_metadata_csv-IsKnown_example :
    let imeis = ok_imeis (parse_metadata_csv no_number no_date as_is file known).rows in
    All (IsKnown known) imeis × Distinct imeis
parse_metadata_csv-IsKnown_example = parse_metadata_csv-IsKnown no_number no_date known as_is file

two_lines :
    filter (λ line. not (is_blank line)) (split_crlf [] (strip_bom file)) ≡ header ∷ line ∷ []
unfolding split_crlf strip_bom trim is_space
two_lines = refl

imei_column :
    index_of (codes "imei") (map as_is (split_line header (detect_separator header))) ≡ some 1
unfolding index_of split_line split_cells clean_cell detect_separator trim is_space text_eq
imei_column = refl

parse_metadata_csv-lines_example :
    map imei_of (parse_metadata_csv no_number no_date as_is file known).rows
    ≡ map (λ line. imei_cell 1 (split_line line (detect_separator header))) (line ∷ [])
parse_metadata_csv-lines_example =
    parse_metadata_csv-lines no_number no_date known as_is file header line [] 1 two_lines
      imei_column

abbrev cells : List Written
cells =
    record { before = codes " "; text = codes "a \"b\" "; after = [] }
    ∷ record { before = []; text = codes "c,d"; after = codes "  " }
    ∷ []

cells-AreWritten : All (IsWritten b';') cells
unfolding is_space
cells-AreWritten = (
  record {
    before = (refl, tt);
    text = (refl, (refl, (refl, (refl, (refl, (refl, tt))))));
    after = tt;
  },
  (record { before = tt; text = (refl, (refl, (refl, tt))); after = (refl, (refl, tt)) }, tt),
)

semicolon-IsSeparator : IsSeparator b';'
unfolding is_space
semicolon-IsSeparator = (refl, refl)

abbrev two_columns : List Text
two_columns = codes "make" ∷ codes "plate" ∷ []

-- The cells of the columns.
abbrev cell : Text → Text
cell column = if text_eq column (codes "make") then codes "a \"b\" " else codes "c,d"

two_cells : map (λ (x : Written). x.text) cells ≡ map cell two_columns
unfolding text_eq
two_cells = refl

row_to_metadata-write_example :
    row_to_metadata no_number no_date two_columns
      (split_line (join (codes ";") (map write cells)) b';')
      b';'
    ≡ metadata_of no_number no_date (set_text two_columns cell) b';'
row_to_metadata-write_example =
    row_to_metadata-write no_number no_date two_columns cell b';'
      (record { before = codes " "; text = codes "a \"b\" "; after = [] })
      (record { before = []; text = codes "c,d"; after = codes "  " } ∷ []) semicolon-IsSeparator
      cells-AreWritten two_cells
