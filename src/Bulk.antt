-- ===== src/Bulk.antt =====
-- Bulk registration from a file: frontend/app/register/bulk-imei-tab.tsx and bulk-confirm-dialog.tsx.
mod Tests
pub mod Classify
pub mod Tab
pub mod Review
use gps_connector.Prelude.{
  ℕ, suc, ◌+◌, ◌-◌, Bool, true, false, ◌&&◌, ◌||◌, not, Option, none, some, List, [], ◌∷◌, ◌++◌,
  map, Text, String, codes, leb, ltb, ◌==◌, if◌then◌else◌, length, take, has, decimal, decimal_sub,
  join, is_some, is_none, truthy,
}
use gps_connector.Imei.{ParsedRow, ok, invalid, duplicate, parse_imeis}

pub record InvalidRow : Type 0 where
  pub imei : Text
  pub reason : String

pub record ClassifiedBulk : Type 0 where
  pub file_name : Text
  pub new_imeis : List Text
  pub already_registered : List Text
  pub invalid : List InvalidRow

-- One round of the loop of `classify`.
unfoldable pub classify_row : List Text → ClassifiedBulk → ParsedRow → ClassifiedBulk
classify_row tenant c (invalid raw reason) = record c {
  invalid = c.invalid ++ record { imei = raw; reason = reason } ∷ [];
}
classify_row tenant c (duplicate raw _) = record c {
  already_registered = c.already_registered ++ raw ∷ [];
}
classify_row tenant c (ok raw) =
    if has raw tenant
    then record c { already_registered = c.already_registered ++ raw ∷ [] }
    else record c { new_imeis = c.new_imeis ++ raw ∷ [] }

unfoldable pub classify_from : List Text → ClassifiedBulk → List ParsedRow → ClassifiedBulk
classify_from tenant c [] = c
classify_from tenant c (row ∷ rows) = classify_from tenant (classify_row tenant c row) rows

unfoldable pub classify : Text → List ParsedRow → List Text → ClassifiedBulk
classify file_name parsed tenant =
    classify_from tenant
      (record { file_name = file_name; new_imeis = []; already_registered = []; invalid = [] })
      parsed

abbrev counted : ℕ → String → List Text
counted n what = if ltb 0 n then (decimal n ++ codes what) ∷ [] else []

unfoldable pub classification_summary : ClassifiedBulk → Text
classification_summary payload = join (codes ", ") (
    (decimal (length payload.new_imeis) ++ codes " new")
    ∷ (counted (length payload.already_registered) " already registered"
        ++ counted (length payload.invalid) " invalid"))

pub data BulkSubmitResult : Type 0 where
  registered : BulkSubmitResult
  failed : (error : Text) → BulkSubmitResult
  partial : (failed_imeis already_registered_imeis : List Text) → BulkSubmitResult

unfoldable pub partial_summary : ℕ → List Text → List Text → Text
partial_summary attempted failed_imeis already = join (codes ", ") (
    (decimal_sub attempted (length failed_imeis + length already)
      ++ codes " of "
      ++ decimal attempted
      ++ codes " registered")
    ∷ (counted (length already) " already registered" ++ counted (length failed_imeis) " failed"))

abbrev pub preview_limit : ℕ
preview_limit = 8

-- `remaining` may be negative in the source, which the test `remaining < 3` passes as 0 does.
unfoldable pub imeis_preview : List Text → Text
imeis_preview imeis =
    let remaining = length imeis - preview_limit in
    if ltb remaining 3
    then join (codes ", ") imeis
    else join (codes ", ") (take preview_limit imeis)
      ++ codes " (+ "
      ++ decimal remaining
      ++ codes " more)"
