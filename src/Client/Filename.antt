-- ===== src/Client/Filename.antt =====
-- The file name of a certificate: `filenameFromDisposition` of frontend/lib/gps-client.ts.
use gps_connector.Prelude.{
  ℕ, ◌≡◌, ◌≢◌, refl, ap, ◌∙◌, All, arith, Text, codes, false, [], ◌∷◌, ◌++◌, Option, none, some,
  ◌==◌, if◌then◌else◌, or_else,
}

abbrev pub default_certificate_filename : Text
default_certificate_filename = codes "tenant-certificate.pem"

-- The rest of the text after `prefix`, if it begins so.
unfoldable pub after_prefix : Text → Text → Option Text
after_prefix [] s = some s
after_prefix (p ∷ ps) [] = none
after_prefix (p ∷ ps) (c ∷ s) = let rest = after_prefix ps s in if c == p then rest else none

abbrev pub skip_quote : Text → Text
skip_quote [] = []
skip_quote (c ∷ s) = if c == b'"' then s else c ∷ s

-- The longest beginning with no quote and no semicolon.
unfoldable pub name_part : Text → Text
name_part [] = []
name_part (c ∷ s) =
    let rest = c ∷ name_part s in if c == b'"' then [] else if c == b';' then [] else rest

unfoldable pub named : Text → Option Text
named [] = none
named (c ∷ s) = some (c ∷ s)

unfoldable pub match_here : Option Text → Option Text
match_here none = none
match_here (some rest) = named (name_part (skip_quote rest))

-- `header.match(/filename="?([^";]+)"?/)?.[1]`
unfoldable pub match_filename : Text → Option Text
match_filename [] = none
match_filename (c ∷ s) =
    let later = match_filename s in
    elim (match_here (after_prefix (codes "filename=") (c ∷ s))) [
      | some name ↦ some name
      | none ↦ later
    ]

abbrev found_name : Option Text → Option Text
found_name none = none
found_name (some header) = match_filename header

unfoldable pub filename_from_disposition : Option Text → Text
filename_from_disposition header = or_else (found_name header) default_certificate_filename

abbrev pub IsNamePart : ℕ → Type 0
IsNamePart c = (c ≢ b'"') × (c ≢ b';')

name_part-quoted : (name post : Text) → All IsNamePart name → name_part (name ++ b'"' ∷ post) ≡ name
unfolding name_part
name_part-quoted [] post h = refl
name_part-quoted (c ∷ name) post h = ground (arith, name_part-quoted name post h.1)

found_at :
    (d : ℕ) (s name : Text)
    → match_here (after_prefix (codes "filename=") (d ∷ s)) ≡ some name
    → match_filename (d ∷ s) ≡ some name
unfolding match_filename
found_at d s name e = rw (e, match_filename)

not_at :
    (d : ℕ) (s : Text)
    → match_here (after_prefix (codes "filename=") (d ∷ s)) ≡ none
    → match_filename (d ∷ s) ≡ match_filename s
unfolding match_filename
not_at d s e = rw (e, match_filename)

quoted_here :
    (c : ℕ) (name post : Text)
    → All IsNamePart (c ∷ name)
    → match_here (
        after_prefix
          (codes "filename=")
          (codes "filename=" ++ (b'"' ∷ ((c ∷ name) ++ b'"' ∷ post))))
      ≡ some (c ∷ name)
unfolding match_here named after_prefix
quoted_here c name post h = ap named (name_part-quoted (c ∷ name) post h)

-- The match at a place where the header says `filename="`, with a name of at least one character.
match_filename-here :
    (c : ℕ) (name post : Text)
    → All IsNamePart (c ∷ name)
    → match_filename (codes "filename=" ++ (b'"' ∷ ((c ∷ name) ++ b'"' ∷ post))) ≡ some (c ∷ name)
match_filename-here c name post h = found_at _ _ (c ∷ name) (quoted_here c name post h)

skip_other : (c : ℕ) (s : Text) → c ≢ b'f' → match_filename (c ∷ s) ≡ match_filename s
unfolding match_here after_prefix
skip_other c s h = not_at c s (let other : (c == b'f') ≡ false = ground arith in rw other)

match_filename-later :
    (pre s : Text) → All (λ c. c ≢ b'f') pre → match_filename (pre ++ s) ≡ match_filename s
match_filename-later [] s h = refl
match_filename-later (c ∷ pre) s (h, hs) = skip_other c (pre ++ s) h ∙ match_filename-later pre s hs

-- The name that a server puts in quotes behind `filename=` is read back, whatever stands before it
-- without the letter f and whatever follows, if it is not empty and has no quote and no semicolon.
pub filename_from_disposition-quoted :
    (pre : Text) (c : ℕ) (name post : Text)
    → All (λ d. d ≢ b'f') pre
    → All IsNamePart (c ∷ name)
    → filename_from_disposition
        (some (pre ++ (codes "filename=" ++ (b'"' ∷ ((c ∷ name) ++ b'"' ∷ post)))))
      ≡ c ∷ name
unfolding filename_from_disposition
filename_from_disposition-quoted pre c name post h k =
    ap (λ o. or_else o default_certificate_filename)
      (match_filename-later pre (codes "filename=" ++ (b'"' ∷ ((c ∷ name) ++ b'"' ∷ post))) h
        ∙ match_filename-here c name post k)
