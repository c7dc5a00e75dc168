-- ===== src/Prelude/Texts/Trim.antt =====
-- What `trim` leaves of a text with space around it.
use Prim.Native.Nat.{ℕ}
use mathlib.Core.Path.{◌≡◌, refl, ap, ◌∙◌}
use mathlib.Core.Bool.{true, false}
use mathlib.Core.List.{
  [], ◌∷◌, ◌++◌, reverse, append_assoc, reverse-append, reverse-cons, reverse-reverse,
}
use gps_connector.Prelude.Lists.{All, All-append}
use gps_connector.Prelude.Texts.{Text, is_space, trim, trim_start}

abbrev pub IsSpace : ℕ → Type 0
IsSpace c = is_space c ≡ true

trim_start_space :
    (before text : Text) → All IsSpace before → trim_start (before ++ text) ≡ trim_start text
unfolding trim_start
trim_start_space [] text h = refl
trim_start_space (c ∷ s) text (h, hs) = rw h (trim_start_space s text hs)

trim_start_core : (c : ℕ) (s : Text) → is_space c ≡ false → trim_start (c ∷ s) ≡ c ∷ s
unfolding trim_start
trim_start_core c s h = rw h refl

reverse-IsSpace : (s : Text) → All IsSpace s → All IsSpace (reverse s)
reverse-IsSpace [] h = tt
reverse-IsSpace (c ∷ s) (h, hs) =
    rw (reverse-cons c s) (All-append IsSpace (reverse s) (c ∷ []) (reverse-IsSpace s hs) (h, tt))

-- Exactly the space around a text that neither starts nor ends with space is removed.
pub trim_around :
    (before : Text) (c : ℕ) (middle : Text) (d : ℕ) (after : Text)
    → All IsSpace before
    → is_space c ≡ false
    → is_space d ≡ false
    → All IsSpace after
    → trim (before ++ (c ∷ middle ++ d ∷ after)) ≡ c ∷ middle ++ d ∷ []
unfolding trim
trim_around before c middle d after b hc hd a =
    let core = c ∷ middle in
    let front =
      trim_start_space before (core ++ d ∷ after) b ∙ trim_start_core c (middle ++ d ∷ after) hc in
    let turned =
      reverse-append core (d ∷ after)
      ∙ ap (λ s. s ++ reverse core) (reverse-cons d after)
      ∙ append_assoc (reverse after) (d ∷ []) (reverse core) in
    let back =
      trim_start_space (reverse after) (d ∷ reverse core) (reverse-IsSpace after a)
      ∙ trim_start_core d (reverse core) hd in
    ap (λ s. reverse (trim_start (reverse s))) front
    ∙ ap (λ s. reverse (trim_start s)) turned
    ∙ ap reverse back
    ∙ reverse-cons d (reverse core)
    ∙ ap (λ s. s ++ d ∷ []) (reverse-reverse core)
