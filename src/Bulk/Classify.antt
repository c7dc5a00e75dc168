-- ===== src/Bulk/Classify.antt =====
-- What `classify` puts where.
use gps_connector.Prelude.{
  ℕ, suc, ◌+◌, ◌≡◌, refl, ◌∙◌, Bool, true, false, ◌&&◌, ◌||◌, not, List, [], ◌∷◌, ◌++◌, Text, arith,
  has, has-append, text_eq, text_eq_iff, length, length-append, Distinct,
}
use gps_connector.Imei.{
  ParsedRow, ok, invalid, duplicate, failed, validate_imei, parse_row, parse_rows, parse_imeis,
  tokens,
}
use gps_connector.Bulk.{ClassifiedBulk, classify_row, classify_from, classify}

abbrev pub is_valid : Text → Bool
is_valid t = elim (validate_imei t) [ ok ↦ true | failed _ ↦ false ]

abbrev total : ClassifiedBulk → ℕ
total c = length c.new_imeis + length c.already_registered + length c.invalid

total-row :
    (tenant : List Text) (c : ClassifiedBulk) (row : ParsedRow)
    → total (classify_row tenant c row) ≡ suc (total c)
unfolding classify_row
total-row tenant c (invalid raw reason) =
    omega (arith, length-append c.invalid (record { imei = raw; reason = reason } ∷ []))
total-row tenant c (duplicate raw _) = omega (arith, length-append c.already_registered (raw ∷ []))
total-row tenant c (ok raw) =
    ground
      (arith, length-append c.already_registered (raw ∷ []), length-append c.new_imeis (raw ∷ []))

total-from :
    (tenant : List Text) (c : ClassifiedBulk) (rows : List ParsedRow)
    → total (classify_from tenant c rows) ≡ total c + length rows
unfolding classify_from
total-from tenant c [] = omega arith
total-from tenant c (row ∷ rows) =
    omega (arith, total-from tenant (classify_row tenant c row) rows, total-row tenant c row)

-- The three counts of the review dialog add up to the number of rows.
pub classify_total :
    (name : Text) (rows : List ParsedRow) (tenant : List Text)
    → let c = classify name rows tenant in
      length c.new_imeis + length c.already_registered + length c.invalid ≡ length rows
unfolding classify classify_from
classify_total name rows tenant = omega (arith, total-from tenant (classify name [] tenant) rows)

module _ (tenant : List Text) where
  new-row :
      (seen : List Text) (c : ClassifiedBulk) (raw t : Text)
      → has t (classify_row tenant c (parse_row seen raw).0).new_imeis ≡ (
          has t c.new_imeis
          || text_eq raw t && is_valid raw && not (has raw seen) && not (has raw tenant))
  unfolding classify_row parse_row has
  new-row seen c raw t = ground (arith, has-append t c.new_imeis (raw ∷ []))

  seen-row :
      (seen : List Text) (raw t : Text)
      → has t (parse_row seen raw).1 ≡ (has t seen || text_eq raw t && is_valid raw)
  unfolding parse_row has
  seen-row seen raw t = ground (arith, text_eq_iff raw t)

  new-rows :
      (seen : List Text) (c : ClassifiedBulk) (raws : List Text) (t : Text)
      → has t (classify_from tenant c (parse_rows seen raws)).new_imeis
        ≡ (has t c.new_imeis || has t raws && is_valid t && not (has t seen) && not (has t tenant))
  unfolding classify_from parse_rows has
  new-rows seen c [] t = ground arith
  new-rows seen c (raw ∷ raws) t =
      let c' = classify_row tenant c (parse_row seen raw).0 in
      ground (
        arith,
        new-rows (parse_row seen raw).1 c' raws t,
        new-row seen c raw t,
        seen-row seen raw t,
        text_eq_iff raw t,
      )

Distinct-snoc :
    (ts : List Text) (t : Text) → Distinct ts → has t ts ≡ false → Distinct (ts ++ t ∷ [])
unfolding has
Distinct-snoc [] t d h = (refl, tt)
Distinct-snoc (s ∷ ss) t d h = (
  ground (arith, has-append s ss (t ∷ []), text_eq_iff s t, text_eq_iff t s),
  Distinct-snoc ss t d.1 (ground arith),
)

-- What has been put among the new IMEIs has been seen.
abbrev Covers : List Text → List Text → Type 0
Covers seen fresh = (t : Text) → has t fresh ≡ true → has t seen ≡ true

module _ (tenant : List Text) where
  Distinct-row :
      (seen : List Text) (c : ClassifiedBulk) (raw : Text)
      → Covers seen c.new_imeis
      → Distinct c.new_imeis
      → Distinct (classify_row tenant c (parse_row seen raw).0).new_imeis
  unfolding classify_row parse_row
  Distinct-row seen c raw h d = ground (arith, h raw, Distinct-snoc c.new_imeis raw d)

  Covers-row :
      (seen : List Text) (c : ClassifiedBulk) (raw : Text)
      → Covers seen c.new_imeis
      → Covers (parse_row seen raw).1 (classify_row tenant c (parse_row seen raw).0).new_imeis
  Covers-row seen c raw h t k =
      ground (arith, h t, new-row tenant seen c raw t, seen-row tenant seen raw t)

  Distinct-rows :
      (seen : List Text) (c : ClassifiedBulk) (raws : List Text)
      → Covers seen c.new_imeis
      → Distinct c.new_imeis
      → Distinct (classify_from tenant c (parse_rows seen raws)).new_imeis
  unfolding classify_from parse_rows
  Distinct-rows seen c [] h d = d
  Distinct-rows seen c (raw ∷ raws) h d =
      Distinct-rows (parse_row seen raw).1 (classify_row tenant c (parse_row seen raw).0) raws
        (Covers-row seen c raw h) (Distinct-row seen c raw h d)

abbrev start : Text → ClassifiedBulk
start name = record { file_name = name; new_imeis = []; already_registered = []; invalid = [] }

drop_unseen : (a b c : Bool) → (a && b && not false && c) ≡ (a && b && c)
drop_unseen a b c = ground arith

-- The IMEIs offered for registration are exactly the valid tokens of the file that the tenant does
-- not have yet, and none is offered twice.
pub classify-parse_imeis :
    (name text : Text) (tenant : List Text)
    → let fresh = (classify name (parse_imeis text) tenant).new_imeis in
      ((t : Text) → has t fresh ≡ (has t (tokens text) && is_valid t && not (has t tenant)))
      × Distinct fresh
unfolding classify parse_imeis has
classify-parse_imeis name text tenant = (
  λ t.
      new-rows tenant [] (start name) (tokens text) t
      ∙ drop_unseen (has t (tokens text)) (is_valid t) _,
  Distinct-rows tenant [] (start name) (tokens text) (λ t h. h) tt,
)
