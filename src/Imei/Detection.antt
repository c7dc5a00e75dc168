-- ===== src/Imei/Detection.antt =====
-- The typing errors that `validateImei` detects.
use gps_connector.Prelude.{
  ℕ, suc, ◌+◌, ◌%◌, ◌≡◌, refl, sym, ◌∙◌, ◌↔◌, ◌⊎◌, inl, inr, Bool, true, ◌&&◌, [], ◌∷◌, ◌++◌, Text,
  arith, ◌==◌, length, all, All, length-append, ap,
}
use gps_connector.Imei.{
  is_digit, digit_value, luhn_term, luhn_check, is_fifteen_digits, validate_imei, Validation,
}
use gps_connector.Imei.Luhn.{
  luhn_sum, luhn_from-reverse, luhn_sum-append, validate_parts, validate_of_parts,
  validate_imei_iff, IsDigit,
}

-- The sum around one position.
check-split :
    (xs : Text) (c : ℕ) (ys : Text)
    → luhn_check (xs ++ c ∷ ys) ≡ (
        (luhn_sum (suc (length ys) + 0) xs
            + (luhn_term (length ys + 0) (digit_value c) + luhn_sum 0 ys))
          % 10
        == 0)
unfolding luhn_check luhn_sum
check-split xs c ys = rw (luhn_from-reverse, luhn_sum-append)

All-middle :
    (xs : Text) (c : ℕ) (ys : Text) → All IsDigit (xs ++ c ∷ ys) → IsDigit c × All IsDigit ys
All-middle [] c ys h = h
All-middle (x ∷ xs) c ys h = All-middle xs c ys h.1

term-injective :
    (k a b s r : ℕ)
    → IsDigit a
    → IsDigit b
    → (s + (luhn_term k (digit_value a) + r)) % 10 ≡ 0
    → (s + (luhn_term k (digit_value b) + r)) % 10 ≡ 0
    → a ≡ b
unfolding luhn_term
term-injective k a b s r ha hb p q = ground arith

ok→digits : (s : Text) → validate_imei s ≡ Validation.ok → All IsDigit s
ok→digits s h = ((validate_imei_iff s).0 h).1

sum_of_ok :
    (xs : Text) (c : ℕ) (ys : Text)
    → validate_imei (xs ++ c ∷ ys) ≡ Validation.ok
    → (luhn_sum (suc (length ys) + 0) xs
          + (luhn_term (length ys + 0) (digit_value c) + luhn_sum 0 ys))
        % 10
      ≡ 0
sum_of_ok xs c ys h = ground (arith, (validate_parts (xs ++ c ∷ ys) h).1, check-split xs c ys)

-- Two accepted numbers that differ in at most one position are the same: a single mistyped digit
-- is always detected.
pub single_error_detected :
    (xs : Text) (a b : ℕ) (ys : Text)
    → validate_imei (xs ++ a ∷ ys) ≡ Validation.ok
    → validate_imei (xs ++ b ∷ ys) ≡ Validation.ok
    → a ≡ b
single_error_detected xs a b ys p q =
    term-injective (length ys + 0) a b _ (luhn_sum 0 ys) (All-middle xs a ys (ok→digits _ p)).0
      (All-middle xs b ys (ok→digits _ q)).0 (sum_of_ok xs a ys p) (sum_of_ok xs b ys q)

-- The pairs of neighbours whose exchange leaves the sum alone: equal digits, and 0 beside 9.
abbrev pub IsBlindPair : ℕ → ℕ → Type 0
IsBlindPair a b = (a ≡ b) ⊎ ((a ≡ b'0') × (b ≡ b'9')) ⊎ ((a ≡ b'9') × (b ≡ b'0'))

swap-sum :
    (k a b s r : ℕ)
    → IsDigit a
    → IsDigit b
    → (s + (luhn_term (suc k) (digit_value a) + (luhn_term k (digit_value b) + r))) % 10 ≡ 0
    → (s + (luhn_term (suc k) (digit_value b) + (luhn_term k (digit_value a) + r))) % 10 ≡ 0
    → IsBlindPair a b
unfolding luhn_term
swap-sum k a b s r ha hb p q = ground arith

blind-sum :
    (k a b : ℕ)
    → IsBlindPair a b
    → (luhn_term (suc k) (digit_value b) + luhn_term k (digit_value a)) % 10
      ≡ (luhn_term (suc k) (digit_value a) + luhn_term k (digit_value b)) % 10
unfolding luhn_term
blind-sum k a b (inl e) = rw e
blind-sum k a b (inr (inl (p, q))) = rw (p, q) (ground arith)
blind-sum k a b (inr (inr (p, q))) = rw (p, q) (ground arith)

all-append : (p : ℕ → Bool) (xs ys : Text) → all p (xs ++ ys) ≡ (all p xs && all p ys)
all-append p [] ys = refl
all-append p (x ∷ xs) ys = ground (arith, all-append p xs ys)

fifteen-swap :
    (xs : Text) (a b : ℕ) (ys : Text)
    → is_fifteen_digits (xs ++ a ∷ b ∷ ys) ≡ is_fifteen_digits (xs ++ b ∷ a ∷ ys)
unfolding is_fifteen_digits
fifteen-swap xs a b ys =
    rw (length-append, all-append)
      (ground (arith, length-append xs (b ∷ a ∷ ys), all-append is_digit xs (b ∷ a ∷ ys)))

check-swap :
    (xs : Text) (a b : ℕ) (ys : Text)
    → IsBlindPair a b
    → luhn_check (xs ++ a ∷ b ∷ ys) ≡ true
    → luhn_check (xs ++ b ∷ a ∷ ys) ≡ true
unfolding luhn_sum
check-swap xs a b ys blind h =
    let same : suc (length ys) + 0 ≡ suc (length ys + 0) = omega arith in
    ground (
      arith,
      check-split xs a (b ∷ ys),
      check-split xs b (a ∷ ys),
      ap (λ k. luhn_term k (digit_value a)) same,
      ap (λ k. luhn_term k (digit_value b)) same,
      blind-sum (length ys + 0) a b blind,
    )

-- When two neighbouring digits of an accepted number are exchanged, the result is accepted exactly
-- if the digits are equal or are 0 and 9: every other exchange is detected.
pub transposition_detected_iff :
    (xs : Text) (a b : ℕ) (ys : Text)
    → validate_imei (xs ++ a ∷ b ∷ ys) ≡ Validation.ok
    → (validate_imei (xs ++ b ∷ a ∷ ys) ≡ Validation.ok) ↔ IsBlindPair a b
unfolding luhn_sum
transposition_detected_iff xs a b ys h = (
  λ k.
      let (da, rest) = All-middle xs a (b ∷ ys) (ok→digits _ h) in
      let same : suc (length ys) + 0 ≡ suc (length ys + 0) = omega arith in
      swap-sum (length ys + 0) a b (luhn_sum (suc (suc (length ys)) + 0) xs) (luhn_sum 0 ys) da
        rest.0 (rw same at (sum_of_ok xs a (b ∷ ys) h)) (rw same at (sum_of_ok xs b (a ∷ ys) k)),
  λ blind.
      let (f, l) = validate_parts _ h in
      validate_of_parts _ (sym (fifteen-swap xs a b ys) ∙ f) (check-swap xs a b ys blind l),
)
