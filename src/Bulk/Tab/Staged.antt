-- ===== src/Bulk/Tab/Staged.antt =====
-- What reading a file does to the tab: `readFile` of frontend/app/register/bulk-imei-tab.tsx.
use gps_connector.Prelude.{◌≡◌, ◌≢◌, refl, Text, List, [], ◌∷◌, some}
use gps_connector.Imei.{ParsedRow, tokens, parse_rows, parse_imeis}
use gps_connector.Bulk.Tab.{Tab, stage, file_read}

abbrev pub staged_tab : Text → List ParsedRow → Tab → Tab
staged_tab name rows tab = record tab { staged = some (record { file_name = name; rows = rows }) }

stage_rows :
    (name : Text) (tab : Tab) (raws : List Text)
    → raws ≢ []
    → stage name (parse_rows [] raws) tab ≡ staged_tab name (parse_rows [] raws) tab
unfolding stage parse_rows
stage_rows name tab [] h = absurd (h refl)
stage_rows name tab (raw ∷ raws) h = refl

-- A file with at least one token is staged, with a row for each token.
pub file_read-staged :
    (name text : Text) (tab : Tab)
    → tokens text ≢ []
    → file_read name (some text) tab ≡ staged_tab name (parse_imeis text) tab
unfolding file_read parse_imeis
file_read-staged name text tab h = stage_rows name tab (tokens text) h
