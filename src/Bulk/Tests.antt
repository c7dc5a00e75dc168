-- ===== src/Bulk/Tests.antt =====
-- The theorems about the bulk registration at concrete files.
use gps_connector.Prelude.{
  ◌≡◌, ◌≢◌, refl, ◌||◌, false, length, is_space, codes, Text, List, [], ◌∷◌, has, Distinct, ◌&&◌,
  not, some,
}
use gps_connector.Imei.{
  ParsedRow, ok, duplicate, parse_imeis, tokens, split_from, strip_bom, is_separator,
}
use gps_connector.Bulk.{classify}
use gps_connector.Bulk.Classify.{classify-parse_imeis, is_valid}
use gps_connector.Bulk.Review.{Review, review_title, bulk_imei_tab}
use gps_connector.Bulk.Review.Offered.{any, badges, sum, is_offered, file_read-review}
use gps_connector.Bulk.Tab.{initial, handle_file, file_read}
use gps_connector.Bulk.Tab.Steps.{here, step, choose, read, IsConsistent, Reach-IsConsistent}

abbrev two_rows : List ParsedRow
two_rows = ok (codes "490154203237518") ∷ duplicate (codes "490154203237518") "Duplicate" ∷ []

abbrev two_lines : Text
two_lines = codes "490154203237518, 12"

classify-parse_imeis_example :
    let fresh = (classify (codes "a.csv") (parse_imeis two_lines) []).new_imeis in
    ((t : Text) → has t fresh ≡ (has t (tokens two_lines) && is_valid t && not (has t [])))
    × Distinct fresh
classify-parse_imeis_example = classify-parse_imeis (codes "a.csv") two_lines []

Reach-IsConsistent_example : IsConsistent (record {
  tab = file_read (codes "a.csv") (some two_lines) (handle_file initial);
  in_flight = [];
})
Reach-IsConsistent_example =
    Reach-IsConsistent (step (step here (choose refl)) (read (codes "a.csv") (some two_lines) refl))

has_tokens : tokens two_lines ≢ []
unfolding tokens split_from strip_bom is_separator is_space
has_tokens e = cc

file_read-review_example :
    (r : Review) × ((bulk_imei_tab [] (file_read (codes "a.csv") (some two_lines) initial)).1
      ≡ some r)
    × (sum (badges r.groups) ≡ length (tokens two_lines))
    × (r.title ≡ review_title (length (tokens two_lines)))
    × (r.confirm_disabled ≡ (false || not (any (is_offered []) (tokens two_lines))))
file_read-review_example = file_read-review [] (codes "a.csv") two_lines initial has_tokens
