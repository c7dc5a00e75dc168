-- ===== src/Prelude/Texts.antt =====
-- JavaScript strings as lists of UTF-16 code units, and sets of them.
pub mod Trim
use Prim.Native.Nat.{ℕ, zero, suc, ◌+◌, ◌-◌, ◌*◌, ◌<◌, ◌/◌, ◌%◌}
use Prim.Native.Char.{code}
use Prim.Native.String.{String}
use mathlib.Core.Path.{◌≡◌, refl, ap, ◌∙◌}
use mathlib.Core.Logic.{◌↔◌}
use mathlib.Core.Bool.{Bool, true, false, ◌&&◌, ◌||◌}
use mathlib.Core.Option.{Option, none, some}
use mathlib.Core.List.{List, [], ◌∷◌, ◌++◌, reverse}
use native.Mathlib.Omega.{arith}
use gps_connector.Prelude.Tests.{if_intro, leb, ltb, ◌==◌, if◌then◌else◌}

abbrev pub Text : Type 0
Text = List ℕ

-- A literal of ASCII characters.
abbrev pub codes : String → Text
codes String.[] = []
codes (String.◌∷◌ c s) = code c ∷ codes s

unfoldable pub text_eq : Text → Text → Bool
text_eq [] [] = true
text_eq (a ∷ s) (b ∷ t) = a == b && text_eq s t
text_eq _ _ = false

pub text_eq_refl : (s : Text) → text_eq s s ≡ true
unfolding text_eq
text_eq_refl [] = refl
text_eq_refl (a ∷ s) = ground (arith, text_eq_refl s)

pub text_eq_sound : (s t : Text) → text_eq s t ≡ true → s ≡ t
unfolding text_eq
text_eq_sound [] [] h = refl
text_eq_sound [] (b ∷ t) h = cc
text_eq_sound (a ∷ s) [] h = cc
text_eq_sound (a ∷ s) (b ∷ t) h = ground (arith, text_eq_sound s t)

pub text_eq_iff : (s t : Text) → (text_eq s t ≡ true) ↔ (s ≡ t)
text_eq_iff s t = (text_eq_sound s t, λ e. rw e (text_eq_refl t))

-- `set.has(t)`, `list.includes(t)`
unfoldable pub has : Text → List Text → Bool
has t [] = false
has t (s ∷ ss) = text_eq s t || has t ss

pub has-cons : (t s : Text) (ss : List Text) → has t (s ∷ ss) ≡ (text_eq s t || has t ss)
unfolding has
has-cons t s ss = refl

pub has-append : (t : Text) (ss us : List Text) → has t (ss ++ us) ≡ (has t ss || has t us)
unfolding has
has-append t [] us = refl
has-append t (s ∷ ss) us = ground (arith, has-append t ss us)

-- No text stands twice in the list.
abbrev pub Distinct : List Text → Type 0
Distinct [] = Unit
Distinct (s ∷ ss) = (has s ss ≡ false) × Distinct ss

-- The class `\s` of a regular expression, which is also what `trim` removes.
unfoldable pub is_space : ℕ → Bool
is_space c =
    (leb 0x09 c && leb c 0x0d)
    || c == 0x20
    || c == 0xa0
    || c == 0x1680
    || (leb 0x2000 c && leb c 0x200a)
    || c == 0x2028
    || c == 0x2029
    || c == 0x202f
    || c == 0x205f
    || c == 0x3000
    || c == 0xfeff

trim_start : Text → Text
trim_start [] = []
trim_start (c ∷ s) = let rest = trim_start s in if is_space c then rest else c ∷ s

-- `text.trim()`
unfoldable pub trim : Text → Text
unfolding trim_start is_space
trim s = reverse (trim_start (reverse (trim_start s)))

-- A number in decimal digits; a number needs fewer digits than the fuel.
decimal_from : ℕ → ℕ → Text → Text
decimal_from zero n digits = digits
decimal_from (suc fuel) n digits =
    let d = (b'0' + n % 10) ∷ digits in
    let rest = decimal_from fuel (n / 10) d in if ltb n 10 then d else rest

unfoldable pub decimal : ℕ → Text
unfolding decimal_from
decimal n = decimal_from (suc n) n []

-- `Number` of a text of decimal digits, given the number that stands before it; `none` is NaN.
number_from : ℕ → Text → Option ℕ
number_from n [] = some n
number_from n (c ∷ s) =
    let rest = number_from (n * 10 + (c - b'0')) s in
    if leb b'0' c && leb c b'9' then rest else none

-- `Number(text)` for a text of decimal digits, of which the empty one is 0.
unfoldable pub number_of : Text → Option ℕ
unfolding number_from
number_of s = number_from 0 s

number_from_digit :
    (m n : ℕ) (digits : Text)
    → m * 10 + n % 10 ≡ n
    → number_from m ((b'0' + n % 10) ∷ digits) ≡ number_from n digits
unfolding number_from
number_from_digit m n digits h =
    rw (test (n % 10) (omega arith)) (ap (λ k. number_from k digits) (omega arith))
  where
    test : (d : ℕ) → d < 10 → (leb b'0' (b'0' + d) && leb (b'0' + d) b'9') ≡ true
    test d l = ground arith

number_from-decimal_from :
    (fuel n : ℕ) (digits : Text)
    → n < fuel
    → number_from 0 (decimal_from fuel n digits) ≡ number_from n digits
unfolding number_from decimal_from
number_from-decimal_from zero n digits h = absurd (omega arith)
number_from-decimal_from (suc fuel) n digits h =
    if_intro (λ (s : Text). number_from 0 s ≡ number_from n digits) (ltb n 10) d
      (decimal_from fuel (n / 10) d) (λ e. number_from_digit 0 n digits (ground arith))
      (λ e.
        number_from-decimal_from fuel (n / 10) d (ground arith)
        ∙ number_from_digit (n / 10) n digits (omega arith))
  where
    d : Text
    d = (b'0' + n % 10) ∷ digits

-- The decimal digits of a number are read as the number.
pub number_of-decimal : (n : ℕ) → number_of (decimal n) ≡ some n
unfolding number_of decimal number_from
number_of-decimal n = number_from-decimal_from (suc n) n [] (omega arith)

-- `${a - b}`, with the sign of the difference
unfoldable pub decimal_sub : ℕ → ℕ → Text
unfolding decimal
decimal_sub a b = if ltb a b then b'-' ∷ decimal (b - a) else decimal (a - b)

-- `texts.join(sep)`
unfoldable pub join : Text → List Text → Text
join sep [] = []
join sep (t ∷ []) = t
join sep (t ∷ u ∷ ts) = t ++ sep ++ join sep (u ∷ ts)

-- `a || b` on texts, and their test
abbrev pub truthy : Text → Bool
truthy [] = false
truthy (_ ∷ _) = true

-- `text.startsWith(prefix)`
unfoldable pub starts_with : Text → Text → Bool
starts_with [] text = true
starts_with (c ∷ prefix) [] = false
starts_with (c ∷ prefix) (d ∷ text) = c == d && starts_with prefix text
