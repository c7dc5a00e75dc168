-- ===== src/Metadata/Rows.antt =====
-- What the rows of a parsed CSV file say.
use gps_connector.Prelude.{
  ℕ, ℤ, ◌≡◌, refl, inl, inr, Text, codes, true, false, not, List, [], ◌∷◌, map, Option, some,
  filter, has, has-cons, text_eq, text_eq_refl, text_eq_sound, Distinct, All, arith, Bool-cases,
  Option-cases,
}
use gps_connector.Client.Calls.{is_blank}
use gps_connector.Imei.{is_fifteen_digits, strip_bom}
use gps_connector.Metadata.{
  MetadataRow, ok, unknown, invalid, split_crlf, split_line, detect_separator, index_of, row_step,
  rows_from, imei_cell, table_of, parsed_lines, parse_metadata_csv,
}

module _ {Num : Type 0} where
  abbrev pub imei_of : MetadataRow Num → Text
  imei_of (ok imei _) = imei
  imei_of (unknown imei) = imei
  imei_of (invalid imei _) = imei

  -- The IMEIs of the rows that are to be updated.
  abbrev pub ok_imeis : List (MetadataRow Num) → List Text
  ok_imeis [] = []
  ok_imeis (ok imei _ ∷ rows) = imei ∷ ok_imeis rows
  ok_imeis (unknown _ ∷ rows) = ok_imeis rows
  ok_imeis (invalid _ _ ∷ rows) = ok_imeis rows

-- An IMEI of 15 digits that is known.
abbrev pub IsKnown : List Text → Text → Type 0
IsKnown known imei = (is_fifteen_digits imei ≡ true) × (has imei known ≡ true)

abbrev IsFresh : List Text → List Text → Text → Type 0
IsFresh known seen imei = IsKnown known imei × (has imei seen ≡ false)

fresh_apart :
    (known seen : List Text) (imei : Text) (imeis : List Text)
    → All (IsFresh known (imei ∷ seen)) imeis
    → has imei imeis ≡ false
unfolding has
fresh_apart known seen imei [] h = refl
fresh_apart known seen imei (t ∷ ts) (h, hs) = elim (Bool-cases (text_eq t imei)) [
  | inl e ↦ ground (arith, h.1, has-cons t imei seen, text_eq_sound t imei e, text_eq_refl imei)
  | inr e ↦ rw e (fresh_apart known seen imei ts hs)
]

weaken_seen :
    (known seen : List Text) (imei : Text) (imeis : List Text)
    → All (IsFresh known (imei ∷ seen)) imeis
    → All (IsFresh known seen) imeis
weaken_seen known seen imei [] h = tt
weaken_seen known seen imei (t ∷ ts) ((k, h), hs) =
    ((k, ground (arith, has-cons t imei seen)), weaken_seen known seen imei ts hs)

module _ {Num : Type 0} (number : Text → Option Num) (date : Text → Option ℤ)
    (known : List Text) where
  abbrev Accepted : List Text → List (MetadataRow Num) → Type 0
  Accepted seen rows = All (IsFresh known seen) (ok_imeis rows) × Distinct (ok_imeis rows)

  -- A row with the rows after it.
  one_row :
      (columns : List Text) (separator : ℕ) (seen values : List Text) (imei : Text)
      (rows : List Text → List (MetadataRow Num))
      → ((seen : List Text) → Accepted seen (rows seen))
      → let (row, seen') = row_step number date known columns separator seen values imei in
        (Accepted seen (row ∷ rows seen')) × (imei_of row ≡ imei)
  unfolding row_step
  one_row columns separator seen values imei rows ih = elim (Bool-cases (is_fifteen_digits imei)) [
    | inr e ↦ rw e (ih seen, refl)
    | inl e ↦ elim (Bool-cases (has imei seen)) [
      | inl f ↦ rw (e, f) (ih seen, refl)
      | inr f ↦ elim (Bool-cases (has imei known)) [
        | inr g ↦
            rw (e, f, g)
              ((weaken_seen known seen imei _ (ih (imei ∷ seen)).0, (ih (imei ∷ seen)).1), refl)
        | inl g ↦
            let (h, d) = ih (imei ∷ seen) in
            rw (e, f, g)
              (
                (
                  (((e, g), f), weaken_seen known seen imei _ h),
                  (fresh_apart known seen imei _ h, d),
                ),
                refl,
              )
      ]
    ]
  ]

  all_rows :
      (columns : List Text) (separator imei_index : ℕ) (seen lines : List Text)
      → Accepted seen (rows_from number date known columns separator imei_index seen lines)
  unfolding rows_from
  all_rows columns separator imei_index seen [] = (tt, tt)
  all_rows columns separator imei_index seen (line ∷ lines) =
      let values = split_line line separator in
      (one_row columns separator seen values (imei_cell imei_index values)
        (λ seen'. rows_from number date known columns separator imei_index seen' lines)
        (λ seen'. all_rows columns separator imei_index seen' lines)).0

  imeis_kept :
      (columns : List Text) (separator imei_index : ℕ) (seen lines : List Text)
      → map imei_of (rows_from number date known columns separator imei_index seen lines)
        ≡ map (λ line. imei_cell imei_index (split_line line separator)) lines
  unfolding rows_from
  imeis_kept columns separator imei_index seen [] = refl
  imeis_kept columns separator imei_index seen (line ∷ lines) =
      let values = split_line line separator in
      let (row, seen') =
        row_step number date known columns separator seen values (imei_cell imei_index values) in
      let ih = imeis_kept columns separator imei_index seen' lines in
      let same =
        (one_row columns separator seen values (imei_cell imei_index values)
          (λ seen'. rows_from number date known columns separator imei_index seen' lines)
          (λ seen'. all_rows columns separator imei_index seen' lines)).1 in
      cc (same, ih)

  known_of_fresh :
      (seen imeis : List Text) → All (IsFresh known seen) imeis → All (IsKnown known) imeis
  known_of_fresh seen [] h = tt
  known_of_fresh seen (t ∷ ts) ((k, _), hs) = (k, known_of_fresh seen ts hs)

  table_rows :
      (lower : Text → Text) (header : Text) (lines : List Text)
      → Accepted [] (table_of number date lower known header lines).rows
  unfolding table_of
  table_rows lower header lines =
      let separator = detect_separator header in
      let columns = map lower (split_line header separator) in
      elim (Option-cases (index_of (codes "imei") columns)) [
        | inl e ↦ rw (e, table_of) (tt, tt)
        | inr (i, e) ↦ rw (e, table_of) (all_rows columns separator i [] lines)
      ]

  line_rows :
      (lower : Text → Text) (lines : List Text)
      → Accepted [] (parsed_lines number date lower known lines).rows
  unfolding parsed_lines
  line_rows lower [] = (tt, tt)
  line_rows lower (_ ∷ []) = (tt, tt)
  line_rows lower (header ∷ line ∷ lines) = table_rows lower header (line ∷ lines)

  -- The IMEIs of the rows that are to be updated have 15 digits, are registered with the tenant, and are
  -- different from one another.
  pub parse_metadata_csv-IsKnown :
      (lower : Text → Text) (text : Text)
      → let imeis = ok_imeis (parse_metadata_csv number date lower text known).rows in
        All (IsKnown known) imeis × Distinct imeis
  unfolding parse_metadata_csv
  parse_metadata_csv-IsKnown lower text =
      let (h, d) =
        line_rows lower (filter (λ line. not (is_blank line)) (split_crlf [] (strip_bom text))) in
      (known_of_fresh [] _ h, d)

  -- In a file with a header and one line or more, where the header has an IMEI column, there is one row for
  -- every line after the header, in the same order, with the IMEI that stands in that column.
  pub parse_metadata_csv-lines :
      (lower : Text → Text) (text header line : Text) (lines : List Text) (imei_index : ℕ)
      → filter (λ line. not (is_blank line)) (split_crlf [] (strip_bom text))
        ≡ header ∷ line ∷ lines
      → index_of (codes "imei") (map lower (split_line header (detect_separator header)))
        ≡ some imei_index
      → map imei_of (parse_metadata_csv number date lower text known).rows
        ≡ map
            (λ line. imei_cell imei_index (split_line line (detect_separator header)))
            (line ∷ lines)
  unfolding parse_metadata_csv parsed_lines table_of
  parse_metadata_csv-lines lower text header line lines imei_index e f =
      rw (e, f, parsed_lines, table_of)
        (imeis_kept _ (detect_separator header) imei_index [] (line ∷ lines))
