-- ===== src/Metadata/Cells.antt =====
-- The cells of a line that was written with quotes.
use gps_connector.Prelude.{
  ℕ, ◌≡◌, refl, ap, sym, ◌∙◌, inl, inr, Text, false, List, [], ◌∷◌, ◌++◌, map, reverse, All,
  All-append, append_assoc, append-nil, Bool-cases, ◌==◌, ==_iff, ==_refl, join, is_space,
}
use mathlib.Core.List.{reverse-append, reverse-reverse}
use gps_connector.Prelude.Texts.Trim.{IsSpace, trim_around}
use gps_connector.Metadata.{split_cells, strip_quote, clean_cell, split_line}

-- A text in quotes with space around them.
pub record Written : Type 0 where
  pub before : Text
  pub text : Text
  pub after : Text

abbrev pub write : Written → Text
write w = w.before ++ (b'"' ∷ w.text ++ b'"' ∷ w.after)

abbrev NotIn : ℕ → ℕ → Type 0
NotIn separator c = (c == separator) ≡ false

-- Only space around the quotes, and no separator between them.
pub record IsWritten (separator : ℕ) (w : Written) : Type 0 where
  pub before : All IsSpace w.before
  pub text : All (NotIn separator) w.text
  pub after : All IsSpace w.after

-- A separator is neither space nor a quote.
abbrev pub IsSeparator : ℕ → Type 0
IsSeparator c = (is_space c ≡ false) × ((b'"' == c) ≡ false)

quote_no_space : is_space b'"' ≡ false
unfolding is_space
quote_no_space = refl

split_cells_end :
    (separator : ℕ) (cell text : Text)
    → All (NotIn separator) text
    → split_cells separator cell text ≡ (cell ++ text) ∷ []
unfolding split_cells
split_cells_end separator cell [] h = ap (λ t. t ∷ []) (sym (append-nil cell))
split_cells_end separator cell (c ∷ s) (h, hs) = rw h (
    split_cells_end separator (cell ++ c ∷ []) s hs
    ∙ ap (λ t. t ∷ []) (append_assoc cell (c ∷ []) s))

split_cells_next :
    (separator : ℕ) (cell text rest : Text)
    → All (NotIn separator) text
    → split_cells separator cell (text ++ separator ∷ rest)
      ≡ (cell ++ text) ∷ split_cells separator [] rest
unfolding split_cells
split_cells_next separator cell [] rest h =
    rw (==_refl separator) (ap (λ t. t ∷ split_cells separator [] rest) (sym (append-nil cell)))
split_cells_next separator cell (c ∷ s) rest (h, hs) = rw h (
    split_cells_next separator (cell ++ c ∷ []) s rest hs
    ∙ ap (λ t. t ∷ split_cells separator [] rest) (append_assoc cell (c ∷ []) s))

strip_quotes :
    (text : Text) → reverse (strip_quote (reverse (strip_quote (b'"' ∷ text ++ b'"' ∷ [])))) ≡ text
strip_quotes text =
    ap (λ s. reverse (strip_quote s)) (reverse-append text (b'"' ∷ [])) ∙ reverse-reverse text

clean_cell-write :
    (w : Written) → All IsSpace w.before → All IsSpace w.after → clean_cell (write w) ≡ w.text
unfolding clean_cell
clean_cell-write w b a =
    ap (λ s. reverse (strip_quote (reverse (strip_quote s))))
      (trim_around w.before b'"' w.text b'"' w.after b quote_no_space quote_no_space a)
    ∙ strip_quotes w.text

space_apart :
    (separator : ℕ) (s : Text)
    → is_space separator ≡ false
    → All IsSpace s
    → All (NotIn separator) s
space_apart separator [] n h = tt
space_apart separator (c ∷ s) n (h, hs) = (
  elim (Bool-cases (c == separator)) [
    | inl e ↦ let same = ap is_space ((==_iff c separator).0 e) in cc
    | inr e ↦ e
  ],
  space_apart separator s n hs,
)

write-NotIn :
    (separator : ℕ) (w : Written)
    → IsSeparator separator
    → IsWritten separator w
    → All (NotIn separator) (write w)
write-NotIn separator w (n, q) h =
    All-append (NotIn separator) w.before (b'"' ∷ w.text ++ b'"' ∷ w.after)
      (space_apart separator w.before n h.before)
      (
        q,
        All-append (NotIn separator) w.text (b'"' ∷ w.after) h.text
            (q, space_apart separator w.after n h.after),
      )

-- Cells that are written in quotes, with any space around the quotes, are read back as they are, with the
-- space and the quotes inside them, if none has the separator in it.
pub split_line-write :
    (separator : ℕ) (w : Written) (ws : List Written)
    → IsSeparator separator
    → All (IsWritten separator) (w ∷ ws)
    → split_line (join (separator ∷ []) (map write (w ∷ ws))) separator
      ≡ map (λ (x : Written). x.text) (w ∷ ws)
unfolding split_line join
split_line-write separator w [] sep (h, _) =
    ap (map clean_cell) (split_cells_end separator [] (write w) (write-NotIn separator w sep h))
    ∙ ap (λ t. t ∷ []) (clean_cell-write w h.before h.after)
split_line-write separator w (v ∷ vs) sep (h, hs) =
    let rest = join (separator ∷ []) (map write (v ∷ vs)) in
    ap (map clean_cell) (
      ap (split_cells separator []) (append_assoc (write w) (separator ∷ []) rest)
      ∙ split_cells_next separator [] (write w) rest (write-NotIn separator w sep h))
    ∙ ap (λ t. t ∷ split_line rest separator) (clean_cell-write w h.before h.after)
    ∙ ap (λ ts. w.text ∷ ts) (split_line-write separator v vs sep hs)
