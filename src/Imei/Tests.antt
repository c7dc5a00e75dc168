-- ===== src/Imei/Tests.antt =====
-- The theorems about imei.ts at concrete numbers.
use gps_connector.Prelude.{is_space, ◌≡◌, ◌↔◌, refl, codes, [], ◌∷◌, ◌++◌, map, get_elem?, some}
use gps_connector.Imei.{
  validate_imei, Validation, tokens, parse_imeis, is_fifteen_digits, is_digit, luhn_check,
  luhn_from, luhn_term, split_from, strip_bom, is_separator,
}
use gps_connector.Imei.Luhn.{IsImei, validate_imei_iff}
use gps_connector.Imei.Detection.{IsBlindPair, transposition_detected_iff}
use gps_connector.Imei.Tokens.{Piece, IsPiece, render, token, last_token, tokens-render}
use gps_connector.Imei.Rows.{row_for, parse_imeis-row_for}

validate_imei_iff_example :
    (validate_imei (codes "490154203237518") ≡ Validation.ok) ↔ IsImei (codes "490154203237518")
validate_imei_iff_example = validate_imei_iff (codes "490154203237518")

accepted : validate_imei (codes "490154203237518") ≡ Validation.ok
unfolding validate_imei is_fifteen_digits is_digit luhn_check luhn_from luhn_term
accepted = refl

transposition_detected_iff_example :
    (validate_imei (codes "940154203237518") ≡ Validation.ok) ↔ IsBlindPair b'4' b'9'
transposition_detected_iff_example =
    transposition_detected_iff [] b'4' b'9' (codes "0154203237518") accepted

abbrev one_piece : Piece
one_piece = record { first = b'1'; others = codes "23"; sep = b','; seps = codes " " }

plain : IsPiece one_piece
unfolding is_separator is_space
plain = record {
  first_plain = refl;
  others_plain = (refl, (refl, tt));
  sep_separates = refl;
  seps_separate = (refl, tt);
}

tokens-render_example :
    tokens (codes "; " ++ render (one_piece ∷ []) (codes "45"))
    ≡ map token (one_piece ∷ []) ++ last_token (codes "45")
unfolding is_separator is_space
tokens-render_example =
    tokens-render (codes "; ") (one_piece ∷ []) (codes "45") (refl, (refl, tt)) (plain, tt)
      (refl, (refl, tt))

two_tokens : tokens (codes "12, 12") ≡ (codes "12" ∷ []) ++ codes "12" ∷ []
unfolding tokens split_from strip_bom is_separator is_space
two_tokens = refl

parse_imeis-row_for_example :
    get_elem? (parse_imeis (codes "12, 12")) 1 ≡ some (row_for (codes "12" ∷ []) (codes "12"))
parse_imeis-row_for_example =
    parse_imeis-row_for (codes "12, 12") (codes "12" ∷ []) (codes "12") [] two_tokens
