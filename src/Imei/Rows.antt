-- ===== src/Imei/Rows.antt =====
-- The rows of `parseImeis`: one for each token, judged by the tokens before it.
use gps_connector.Prelude.{
  ◌≡◌, refl, ap, ◌∙◌, List, [], ◌∷◌, ◌++◌, map, Text, arith, ◌||◌, if◌then◌else◌, append_assoc,
  append-nil, has, has-cons, has-append, text_eq, text_eq_iff, length, get_elem?, some,
}
use gps_connector.Imei.{
  ParsedRow, ok, invalid, duplicate, Validation, failed, validate_imei, parse_row, parse_rows,
  parse_imeis, tokens, raw_of,
}

-- What the row of a token is, given the tokens before it.
abbrev pub row_for : List Text → Text → ParsedRow
row_for before raw = elim (validate_imei raw) [
  | failed reason ↦ invalid raw reason
  | ok ↦ if has raw before then duplicate raw "Duplicate" else ok raw
]

-- The set holds the valid ones of the tokens before.
abbrev Tracks : List Text → List Text → Type 0
Tracks seen before = (t : Text) → validate_imei t ≡ Validation.ok → has t seen ≡ has t before

has-snoc :
    (t raw : Text) (before : List Text)
    → has t (before ++ raw ∷ []) ≡ (has t before || text_eq raw t)
unfolding has
has-snoc t raw before = ground (arith, has-append t before (raw ∷ []))

parse_row_lem :
    (seen before : List Text) (raw : Text)
    → Tracks seen before
    → ((parse_row seen raw).0 ≡ row_for before raw)
      × Tracks (parse_row seen raw).1 (before ++ raw ∷ [])
unfolding parse_row
parse_row_lem seen before raw h = (
  ground (arith, h raw),
  λ t valid.
      ground
        (arith, h t valid, h raw, has-snoc t raw before, has-cons t raw seen, text_eq_iff raw t),
)

parse_rows-at :
    (seen before pre : List Text) (raw : Text) (post : List Text)
    → Tracks seen before
    → get_elem? (parse_rows seen (pre ++ raw ∷ post)) (length pre)
      ≡ some (row_for (before ++ pre) raw)
unfolding parse_rows
parse_rows-at seen before [] raw post h =
    rw append-nil (ap some (parse_row_lem seen before raw h).0)
parse_rows-at seen before (p ∷ pre) raw post h =
    parse_rows-at (parse_row seen p).1 (before ++ p ∷ []) pre raw post
      (parse_row_lem seen before p h).1
    ∙ ap (λ b. some (row_for b raw)) (append_assoc before (p ∷ []) pre)

-- The row of each token depends on the token and those before it alone: `invalid` with the
-- validator's reason if it is not a valid IMEI, else `duplicate` if it stands among the tokens
-- before it, else `ok`.
pub parse_imeis-row_for :
    (text : Text) (pre : List Text) (raw : Text) (post : List Text)
    → tokens text ≡ pre ++ raw ∷ post
    → get_elem? (parse_imeis text) (length pre) ≡ some (row_for pre raw)
unfolding parse_imeis
parse_imeis-row_for text pre raw post h = rw h (parse_rows-at [] [] pre raw post (λ t v. refl))

parse_row-raw : (seen : List Text) (raw : Text) → raw_of (parse_row seen raw).0 ≡ raw
unfolding parse_row
parse_row-raw seen raw = ground arith

parse_rows-raws : (seen raws : List Text) → map raw_of (parse_rows seen raws) ≡ raws
unfolding parse_rows
parse_rows-raws seen [] = refl
parse_rows-raws seen (raw ∷ raws) =
    cc (parse_row-raw seen raw, parse_rows-raws (parse_row seen raw).1 raws)

-- There is one row for each token, in the order of the text.
pub parse_imeis-tokens : (text : Text) → map raw_of (parse_imeis text) ≡ tokens text
unfolding parse_imeis
parse_imeis-tokens text = parse_rows-raws [] (tokens text)
