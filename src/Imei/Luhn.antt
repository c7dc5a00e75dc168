-- ===== src/Imei/Luhn.antt =====
-- The check-digit sum of `luhnCheck`: its closed form, and the typing errors that it detects.
use gps_connector.Prelude.{
  ℕ, suc, ◌+◌, ◌*◌, ◌/◌, ◌%◌, ◌≤◌, ◌≡◌, refl, ◌∙◌, ◌↔◌, Bool, true, false, not, [], ◌∷◌, ◌++◌,
  reverse, Text, arith, ◌==◌, if◌then◌else◌, length, all, All, length-append, ap,
}
use mathlib.Core.List.{reverse-cons}
use gps_connector.Imei.{
  is_digit, digit_value, luhn_term, luhn_from, luhn_check, is_fifteen_digits, validate_imei,
  Validation,
}

-- The sum by position from the right, `shift` further characters following.
unfoldable pub luhn_sum : ℕ → Text → ℕ
luhn_sum shift [] = 0
luhn_sum shift (c ∷ cs) = luhn_term (length cs + shift) (digit_value c) + luhn_sum shift cs

luhn_from-append :
    (i sum : ℕ) (xs : Text) (c : ℕ)
    → luhn_from i sum (xs ++ c ∷ [])
      ≡ luhn_from i sum xs + luhn_term (length xs + i) (digit_value c)
unfolding luhn_from
luhn_from-append i sum [] c = ap (λ k. sum + luhn_term k (digit_value c)) (omega arith)
luhn_from-append i sum (x ∷ xs) c =
    luhn_from-append (suc i) (sum + luhn_term i (digit_value x)) xs c
    ∙ ap
        (λ k.
          luhn_from (suc i) (sum + luhn_term i (digit_value x)) xs + luhn_term k (digit_value c))
        (omega arith)

length-reverse : (xs : Text) → length (reverse xs) ≡ length xs
length-reverse [] = refl
length-reverse (x ∷ xs) =
    rw reverse-cons (omega (arith, length-append (reverse xs) (x ∷ []), length-reverse xs))

pub luhn_from-reverse : (xs : Text) → luhn_from 0 0 (reverse xs) ≡ luhn_sum 0 xs
unfolding luhn_sum luhn_from
luhn_from-reverse [] = refl
luhn_from-reverse (x ∷ xs) =
    rw (reverse-cons, luhn_from-append, length-reverse) (omega (arith, luhn_from-reverse xs))

pub luhn_sum-append :
    (shift : ℕ) (xs ys : Text)
    → luhn_sum shift (xs ++ ys) ≡ luhn_sum (length ys + shift) xs + luhn_sum shift ys
unfolding luhn_sum
luhn_sum-append shift [] ys = omega arith
luhn_sum-append shift (x ∷ xs) ys =
    let same : length (xs ++ ys) + shift ≡ length xs + (length ys + shift) =
      omega (arith, length-append xs ys) in
    rw same (omega (arith, luhn_sum-append shift xs ys))

-- The digit sum of a doubled digit, and the sum of the standard: from the left, every other digit
-- doubled.
pub doubled : ℕ → ℕ
doubled d = d * 2 / 10 + d * 2 % 10

pub alternate_sum : Bool → Text → ℕ
alternate_sum twice [] = 0
alternate_sum twice (c ∷ cs) =
    (if twice then doubled (digit_value c) else digit_value c) + alternate_sum (not twice) cs

abbrev pub IsDigit : ℕ → Type 0
IsDigit c = (b'0' ≤ c) × (c ≤ b'9')

all_digits→All : (s : Text) → all is_digit s ≡ true → All IsDigit s
unfolding is_digit
all_digits→All [] h = tt
all_digits→All (c ∷ s) h = ((ground arith, ground arith), all_digits→All s (ground arith))

All→all_digits : (s : Text) → All IsDigit s → all is_digit s ≡ true
unfolding is_digit
All→all_digits [] h = refl
All→all_digits (c ∷ s) h = ground (arith, All→all_digits s h.1)

luhn_term-doubled :
    (k c : ℕ)
    → IsDigit c
    → luhn_term (k + 0) (digit_value c)
      ≡ (if k % 2 == 1 then doubled (digit_value c) else digit_value c)
unfolding luhn_term doubled
luhn_term-doubled k c h = ground arith

even_flips : (k : ℕ) → (suc k % 2 == 1) ≡ not (k % 2 == 1)
even_flips k = ground arith

not-not : (b : Bool) → not (not b) ≡ b
not-not true = refl
not-not false = refl

-- The two sums agree: which digits are doubled depends on how many follow.
luhn_sum-alternate_sum :
    (s : Text) → All IsDigit s → luhn_sum 0 s ≡ alternate_sum (not (length s % 2 == 1)) s
unfolding luhn_sum alternate_sum
luhn_sum-alternate_sum [] h = refl
luhn_sum-alternate_sum (c ∷ cs) h =
    rw (even_flips (length cs), not-not, luhn_term-doubled (length cs) c h.0)
      (omega (arith, luhn_sum-alternate_sum cs h.1))

-- A 15-digit number whose standard sum, every other digit from the second on doubled, is a
-- multiple of ten.
abbrev pub IsImei : Text → Type 0
IsImei s = (length s ≡ 15) × All IsDigit s × (alternate_sum false s % 10 ≡ 0)

fifteen→parts : (s : Text) → is_fifteen_digits s ≡ true → (length s ≡ 15) × All IsDigit s
unfolding is_fifteen_digits
fifteen→parts s h = (ground arith, all_digits→All s (ground arith))

check-alternate :
    (s : Text) → length s ≡ 15 → All IsDigit s → luhn_check s ≡ (alternate_sum false s % 10 == 0)
unfolding luhn_check
check-alternate s n h = rw (luhn_from-reverse, luhn_sum-alternate_sum s h, n)

pub validate_parts :
    (s : Text)
    → validate_imei s ≡ Validation.ok
    → (is_fifteen_digits s ≡ true) × (luhn_check s ≡ true)
unfolding validate_imei
validate_parts s h = ground arith

pub validate_of_parts :
    (s : Text) → is_fifteen_digits s ≡ true → luhn_check s ≡ true → validate_imei s ≡ Validation.ok
unfolding validate_imei
validate_of_parts s h k = ground arith

-- `validateImei` accepts a text exactly when it has fifteen decimal digits whose standard Luhn
-- sum (read from the left, every second digit doubled and its digits added) is a multiple of ten.
pub validate_imei_iff : (s : Text) → (validate_imei s ≡ Validation.ok) ↔ IsImei s
unfolding is_fifteen_digits
validate_imei_iff s = (
  λ h.
      let (f, l) = validate_parts s h in
      let (n, d) = fifteen→parts s f in (n, d, ground (arith, check-alternate s n d)),
  λ h.
      validate_of_parts s (ground (arith, All→all_digits s h.1))
        (rw (check-alternate s h.0 h.1) (ground arith)),
)
