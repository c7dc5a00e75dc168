-- ===== src/Imei.antt =====
-- IMEI numbers: frontend/lib/imei.ts.
pub mod Luhn
pub mod Detection
pub mod Tokens
pub mod Rows
mod Tests
use gps_connector.Prelude.{
  ℕ, suc, ◌+◌, ◌-◌, ◌*◌, ◌%◌, Bool, true, false, ◌&&◌, ◌||◌, not, List, [], ◌∷◌, ◌++◌, map, reverse,
  Text, String, codes, leb, ltb, ◌==◌, if◌then◌else◌, length, all, filter, has, is_space,
}

pub data ParsedRow : Type 0 where
  ok : (raw : Text) → ParsedRow
  invalid : (raw : Text) (reason : String) → ParsedRow
  duplicate : (raw : Text) (reason : String) → ParsedRow

pub data Validation : Type 0 where
  ok : Validation
  failed : (reason : String) → Validation

unfoldable pub is_digit : ℕ → Bool
is_digit c = leb b'0' c && leb c b'9'

-- `/^\d{15}$/`
unfoldable pub is_fifteen_digits : Text → Bool
is_fifteen_digits s = length s == 15 && all is_digit s

-- `Number` of a digit
abbrev pub digit_value : ℕ → ℕ
digit_value c = c - b'0'

-- What round `i` of the loop adds for a digit.
unfoldable pub luhn_term : ℕ → ℕ → ℕ
luhn_term i digit =
    if i % 2 == 1
    then (let doubled = digit * 2 in if ltb 9 doubled then doubled - 9 else doubled)
    else digit

-- The loop of `luhnCheck` from round `i` on, over the characters from the last to the first.
unfoldable pub luhn_from : ℕ → ℕ → Text → ℕ
luhn_from i sum [] = sum
luhn_from i sum (c ∷ cs) = luhn_from (suc i) (sum + luhn_term i (digit_value c)) cs

unfoldable pub luhn_check : Text → Bool
luhn_check value = luhn_from 0 0 (reverse value) % 10 == 0

unfoldable pub validate_imei : Text → Validation
validate_imei value =
    if not (is_fifteen_digits value)
    then failed "Not 15 digits"
    else if not (luhn_check value)
    then failed "Invalid IMEI"
    else ok

-- The class `[\s,;]`
unfoldable pub is_separator : ℕ → Bool
is_separator c = is_space c || c == b',' || c == b';'

-- `split(/[\s,;]+/)`: a run of separators ends one part, which may be empty at both ends of the text.
unfoldable pub split_from : Bool → Text → Text → List Text
split_from in_run part [] = part ∷ []
split_from in_run part (c ∷ s) =
    let longer = split_from false (part ++ c ∷ []) s in
    let skipped = split_from true part s in
    let closed = part ∷ split_from true [] s in
    if is_separator c then if in_run then skipped else closed else longer

abbrev pub is_nonempty {ℓ} : {A : Type ℓ} → List A → Bool
is_nonempty [] = false
is_nonempty (_ ∷ _) = true

-- `text.replace(/^\uFEFF/, "")`
unfoldable pub strip_bom : Text → Text
strip_bom [] = []
strip_bom (c ∷ s) = if c == 0xfeff then s else c ∷ s

unfoldable pub tokens : Text → List Text
tokens text = filter is_nonempty (split_from false [] (strip_bom text))

-- One call of the function that `parseImeis` maps over the tokens: the row, and the set afterwards.
unfoldable pub parse_row : List Text → Text → ParsedRow × List Text
parse_row seen raw = elim (validate_imei raw) [
  | failed reason ↦ (invalid raw reason, seen)
  | ok ↦ if has raw seen then (duplicate raw "Duplicate", seen) else (ok raw, raw ∷ seen)
]

unfoldable pub parse_rows : List Text → List Text → List ParsedRow
parse_rows seen [] = []
parse_rows seen (raw ∷ raws) = let (row, seen') = parse_row seen raw in row ∷ parse_rows seen' raws

unfoldable pub parse_imeis : Text → List ParsedRow
parse_imeis text = parse_rows [] (tokens text)

abbrev pub raw_of : ParsedRow → Text
raw_of (ok raw) = raw
raw_of (invalid raw _) = raw
raw_of (duplicate raw _) = raw
