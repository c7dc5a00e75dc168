-- ===== src/Proxy/Slashes.antt =====
-- The base address without its last slashes: `backendUrl` of frontend/lib/gps-proxy.ts.
use gps_connector.Prelude.{
  ℕ, ◌≡◌, refl, ap, sym, ◌∙◌, inl, inr, Text, true, false, [], ◌∷◌, ◌++◌, reverse, All, All-append,
  Bool-cases, ◌==◌, subst, arith,
}
use mathlib.Core.List.{reverse-append, reverse-reverse}
use gps_connector.Proxy.{strip_slashes, without_slashes}

abbrev IsSlash : ℕ → Type 0
IsSlash c = (c == b'/') ≡ true

-- The second text is the first without the slashes at its end.
pub record IsTrimmed (base trimmed : Text) : Type 0 where
  pub slashes : Text
  pub parts : base ≡ trimmed ++ slashes
  pub only_slashes : All IsSlash slashes
  pub ends : (t : Text) (c : ℕ) → trimmed ≡ t ++ c ∷ [] → (c == b'/') ≡ false

record IsStripped (s stripped : Text) : Type 0 where
  slashes : Text
  parts : s ≡ slashes ++ stripped
  only_slashes : All IsSlash slashes
  starts : (c : ℕ) (t : Text) → stripped ≡ c ∷ t → (c == b'/') ≡ false

strip_slashes-IsStripped : (s : Text) → IsStripped s (strip_slashes s)
unfolding strip_slashes
strip_slashes-IsStripped [] = record {
  slashes = [];
  parts = refl;
  only_slashes = tt;
  starts = λ c t e. cc;
}
strip_slashes-IsStripped (c ∷ s) = elim (Bool-cases (c == b'/')) [
  | inl e ↦
      let h = strip_slashes-IsStripped s in
      rw e (record {
        slashes = c ∷ h.slashes;
        parts = ap (λ t. c ∷ t) h.parts;
        only_slashes = (e, h.only_slashes);
        starts = h.starts;
      })
  | inr e ↦ rw e (record {
    slashes = [];
    parts = refl;
    only_slashes = tt;
    starts = λ d t f. let same : c ≡ d = ground arith in subst (λ x. (x == b'/') ≡ false) same e;
  })
]

All-reverse : (s : Text) → All IsSlash s → All IsSlash (reverse s)
All-reverse [] h = tt
All-reverse (c ∷ s) (h, hs) =
    subst (All IsSlash) (sym (reverse-append (c ∷ []) s))
      (All-append IsSlash (reverse s) (c ∷ []) (All-reverse s hs) (h, tt))

pub without_slashes-IsTrimmed : (base : Text) → IsTrimmed base (without_slashes base)
unfolding without_slashes
without_slashes-IsTrimmed base =
    let h = strip_slashes-IsStripped (reverse base) in
    let kept = strip_slashes (reverse base) in
    record {
      slashes = reverse h.slashes;
      parts = sym (reverse-reverse base) ∙ ap reverse h.parts ∙ reverse-append h.slashes kept;
      only_slashes = All-reverse h.slashes h.only_slashes;
      ends = λ t c e.
          h.starts c (reverse t)
            (sym (reverse-reverse kept) ∙ ap reverse e ∙ reverse-append t (c ∷ []));
    }
