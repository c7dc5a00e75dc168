-- ===== src/Imei/Tokens.antt =====
-- How `parseImeis` cuts a text into tokens.
use gps_connector.Prelude.{
  ℕ, ◌≡◌, refl, sym, ap, ◌∙◌, inl, inr, true, false, List, [], ◌∷◌, ◌++◌, map, Text, arith, ◌==◌,
  filter, All, Bool-cases, append_assoc, append-nil, is_space,
}
use gps_connector.Imei.{is_separator, split_from, is_nonempty, strip_bom, tokens}

abbrev pub IsSeparator : ℕ → Type 0
IsSeparator c = is_separator c ≡ true

abbrev pub IsPlain : ℕ → Type 0
IsPlain c = is_separator c ≡ false

bom_is_separator : (c : ℕ) → (c == 0xfeff) ≡ true → is_separator c ≡ true
unfolding is_separator is_space
bom_is_separator c h = ground arith

-- Inside a run and before it the same tokens follow.
split-in_run :
    (s : Text)
    → filter is_nonempty (split_from true [] s) ≡ filter is_nonempty (split_from false [] s)
unfolding split_from
split-in_run [] = refl
split-in_run (c ∷ s) = elim (Bool-cases (is_separator c)) [ inl e ↦ rw e | inr e ↦ rw e ]

-- A leading byte-order mark is a separator: that it is cut off first changes nothing.
tokens-split : (s : Text) → tokens s ≡ filter is_nonempty (split_from false [] s)
unfolding tokens strip_bom split_from
tokens-split [] = refl
tokens-split (c ∷ s) = elim (Bool-cases (c == 0xfeff)) [
  | inl e ↦ rw (e, bom_is_separator c e) (sym (split-in_run s))
  | inr e ↦ rw e
]

split-separators :
    (part s rest : Text)
    → All IsSeparator s
    → split_from true part (s ++ rest) ≡ split_from true part rest
unfolding split_from
split-separators part [] rest h = refl
split-separators part (c ∷ s) rest h = rw h.0 (split-separators part s rest h.1)

split-plain :
    (part t rest : Text)
    → All IsPlain t
    → split_from false part (t ++ rest) ≡ split_from false (part ++ t) rest
unfolding split_from
split-plain part [] rest h = rw append-nil
split-plain part (c ∷ t) rest h = rw h.0 (
    split-plain (part ++ c ∷ []) t rest h.1
    ∙ ap (λ p. split_from false p rest) (append_assoc part (c ∷ []) t))

-- A token, which is not empty, and the separators after it.
pub record Piece : Type 0 where
  pub first : ℕ
  pub others : Text
  pub sep : ℕ
  pub seps : Text

abbrev pub token : Piece → Text
token p = p.first ∷ p.others

pub record IsPiece (p : Piece) : Type 0 where
  pub first_plain : IsPlain p.first
  pub others_plain : All IsPlain p.others
  pub sep_separates : IsSeparator p.sep
  pub seps_separate : All IsSeparator p.seps

abbrev pub render : List Piece → Text → Text
render [] last = last
render (p ∷ ps) last = (p.first ∷ p.others) ++ (p.sep ∷ (p.seps ++ render ps last))

-- What follows the last separator: a token, unless it is empty.
abbrev pub last_token : Text → List Text
last_token [] = []
last_token (c ∷ s) = (c ∷ s) ∷ []

split-end : (part : Text) → split_from false part [] ≡ part ∷ []
unfolding split_from
split-end part = refl

split-close :
    (part : Text) (c : ℕ) (s : Text)
    → IsSeparator c
    → split_from false part (c ∷ s) ≡ part ∷ split_from true [] s
unfolding split_from
split-close part c s h = rw h

split-token :
    (first : ℕ) (others rest : Text)
    → IsPlain first
    → All IsPlain others
    → split_from false [] ((first ∷ others) ++ rest) ≡ split_from false (first ∷ others) rest
split-token first others rest h k = split-plain [] (first ∷ others) rest (h, k)

split-render :
    (ps : List Piece) (last : Text)
    → All IsPiece ps
    → All IsPlain last
    → filter is_nonempty (split_from false [] (render ps last)) ≡ map token ps ++ last_token last
split-render [] [] h k = rw split-end
split-render [] (c ∷ s) h k =
    ap (λ t. filter is_nonempty (split_from false [] t)) (sym (append-nil (c ∷ s)))
    ∙ ap (filter is_nonempty) (split-token c s [] k.0 k.1 ∙ split-end (c ∷ s))
split-render (p ∷ ps) last (v, h) k =
    ap (filter is_nonempty) (
      split-token p.first p.others (p.sep ∷ (p.seps ++ render ps last)) v.first_plain v.others_plain
      ∙ split-close (token p) p.sep (p.seps ++ render ps last) v.sep_separates
      ∙ ap (λ r. token p ∷ r) (split-separators [] p.seps (render ps last) v.seps_separate))
    ∙ ap (λ r. token p ∷ r) (split-in_run (render ps last) ∙ split-render ps last h k)

-- Reading back a list of IMEIs, or any other tokens, that was written with at least one separator
-- after each (the last token may have none) and any separators in front gives the same tokens.
pub tokens-render :
    (lead : Text) (ps : List Piece) (last : Text)
    → All IsSeparator lead
    → All IsPiece ps
    → All IsPlain last
    → tokens (lead ++ render ps last) ≡ map token ps ++ last_token last
tokens-render lead ps last s h k =
    tokens-split (lead ++ render ps last)
    ∙ sym (split-in_run (lead ++ render ps last))
    ∙ ap (filter is_nonempty) (split-separators [] lead (render ps last) s)
    ∙ split-in_run (render ps last)
    ∙ split-render ps last h k
