-- ===== src/Nav.antt =====
-- The navigation: frontend/components/main-nav.tsx and site-header.tsx.
use gps_connector.Prelude.{
  ◌≡◌, ◌≢◌, refl, ℕ, Text, codes, Bool, true, ◌||◌, not, List, [], ◌∷◌, ◌++◌, some, text_eq,
  text_eq_sound, starts_with, arith, filter, length, get_elem?, ap, ◌≤◌, Bool-cases, inl, inr,
}

-- `items`, by their addresses
abbrev pub items : List Text
items = codes "/overview" ∷ codes "/register" ∷ codes "/map" ∷ []

unfoldable pub is_active : Text → Text → Bool
is_active pathname href = text_eq pathname href || starts_with (href ++ codes "/") pathname

-- The items that are marked as the page that is shown.
unfoldable pub active_items : Text → List Text
active_items pathname = filter (is_active pathname) items

-- Whether the header is there.
unfoldable pub has_header : Text → Bool
has_header pathname = not (starts_with (codes "/sign-in") pathname)

starts_with_second :
    (a b : ℕ) (s text : Text) → starts_with (a ∷ b ∷ s) text ≡ true → get_elem? text 1 ≡ some b
unfolding starts_with
starts_with_second a b s [] h = cc
starts_with_second a b s (c ∷ []) h = ground arith
starts_with_second a b s (c ∷ d ∷ text) h = ground arith

text_eq_second :
    (a b : ℕ) (s text : Text) → text_eq text (a ∷ b ∷ s) ≡ true → get_elem? text 1 ≡ some b
text_eq_second a b s text h = ap (λ t. get_elem? t 1) (text_eq_sound text (a ∷ b ∷ s) h)

active_second :
    (a b : ℕ) (s pathname : Text)
    → is_active pathname (a ∷ b ∷ s) ≡ true
    → get_elem? pathname 1 ≡ some b
unfolding is_active
active_second a b s pathname h = elim (Bool-cases (text_eq pathname (a ∷ b ∷ s))) [
  | inl e ↦ text_eq_second a b s pathname e
  | inr e ↦ starts_with_second a b (s ++ codes "/") pathname (ground (arith, h, e))
]

at_most_one :
    (p : Text → Bool) (a b c : Text)
    → (p a ≡ true → p b ≡ true → ⊥)
    → (p a ≡ true → p c ≡ true → ⊥)
    → (p b ≡ true → p c ≡ true → ⊥)
    → length (filter p (a ∷ b ∷ c ∷ [])) ≤ 1
at_most_one p a b c f g h = ground arith

differ :
    (a b c : ℕ) (s t pathname : Text)
    → b ≢ c
    → is_active pathname (a ∷ b ∷ s) ≡ true
    → is_active pathname (a ∷ c ∷ t) ≡ true
    → ⊥
differ a b c s t pathname n h k =
    let one = active_second a b s pathname h in
    let other = active_second a c t pathname k in n (ground (arith, one, other))

-- Whatever page is shown, at most one item is marked as that page, and below the address of an item it is
-- that item.
pub active_items-length :
    (pathname : Text)
    → (length (active_items pathname) ≤ 1)
      × ((rest : Text) → active_items (codes "/overview/" ++ rest) ≡ codes "/overview" ∷ [])
      × ((rest : Text) → active_items (codes "/register/" ++ rest) ≡ codes "/register" ∷ [])
      × ((rest : Text) → active_items (codes "/map/" ++ rest) ≡ codes "/map" ∷ [])
unfolding active_items is_active starts_with text_eq
active_items-length pathname = (
  at_most_one (is_active pathname) (codes "/overview") (codes "/register") (codes "/map")
      (differ b'/' b'o' b'r' (codes "verview") (codes "egister") pathname (λ e. omega arith))
      (differ b'/' b'o' b'm' (codes "verview") (codes "ap") pathname (λ e. omega arith))
      (differ b'/' b'r' b'm' (codes "egister") (codes "ap") pathname (λ e. omega arith)),
  λ rest. refl,
  λ rest. refl,
  λ rest. refl,
)
