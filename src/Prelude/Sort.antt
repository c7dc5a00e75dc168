-- ===== src/Prelude/Sort.antt =====
-- `Array.prototype.sort` with the comparator `a.key - b.key`: a stable sort by ascending keys.
use Prim.Native.Nat.{ℕ, ◌≤◌}
use mathlib.Core.Logic.{inl, inr}
use mathlib.Core.List.{List, [], ◌∷◌, Perm}
use mathlib.Core.List.Perm
use native.Mathlib.Omega.{arith}
use gps_connector.Prelude.Tests.{leb, if◌then◌else◌, Bool-cases}

module _ {ℓ} {A : Type ℓ} (key : A → ℕ) where
  unfoldable pub insert_by : A → List A → List A
  insert_by x [] = x ∷ []
  insert_by x (y ∷ ys) =
      let rest = insert_by x ys in if leb (key x) (key y) then x ∷ y ∷ ys else y ∷ rest

  unfoldable pub sort_by : List A → List A
  sort_by [] = []
  sort_by (x ∷ xs) = insert_by x (sort_by xs)

  abbrev pub LeHead : ℕ → List A → Type 0
  LeHead k [] = Unit
  LeHead k (y ∷ ys) = k ≤ key y

  abbrev pub IsSortedBy : List A → Type 0
  IsSortedBy [] = Unit
  IsSortedBy (x ∷ xs) = LeHead (key x) xs × IsSortedBy xs

  insert-LeHead :
      (k : ℕ) (x : A) (ys : List A) → k ≤ key x → LeHead k ys → LeHead k (insert_by x ys)
  unfolding insert_by
  insert-LeHead k x [] h l = h
  insert-LeHead k x (y ∷ ys) h l = elim (Bool-cases (leb (key x) (key y))) [
    | inl e ↦ rw e h
    | inr e ↦ rw e l
  ]

  insert-IsSortedBy : (x : A) (ys : List A) → IsSortedBy ys → IsSortedBy (insert_by x ys)
  unfolding insert_by
  insert-IsSortedBy x [] s = (tt, tt)
  insert-IsSortedBy x (y ∷ ys) s = elim (Bool-cases (leb (key x) (key y))) [
    | inl e ↦ rw e (ground arith, s)
    | inr e ↦ rw e (insert-LeHead (key y) x ys (ground arith) s.0, insert-IsSortedBy x ys s.1)
  ]

  pub sort_by-IsSortedBy : (xs : List A) → IsSortedBy (sort_by xs)
  unfolding sort_by
  sort_by-IsSortedBy [] = tt
  sort_by-IsSortedBy (x ∷ xs) = insert-IsSortedBy x (sort_by xs) (sort_by-IsSortedBy xs)

  insert-Perm : (x : A) (ys : List A) → Perm (insert_by x ys) (x ∷ ys)
  unfolding insert_by
  insert-Perm x [] = Perm.refl (x ∷ [])
  insert-Perm x (y ∷ ys) = elim (Bool-cases (leb (key x) (key y))) [
    | inl e ↦ rw e (Perm.refl (x ∷ y ∷ ys))
    | inr e ↦ rw e (Perm.trans (Perm.cons y (insert-Perm x ys)) (Perm.swap x y ys))
  ]

  pub sort_by-Perm : (xs : List A) → Perm (sort_by xs) xs
  unfolding sort_by
  sort_by-Perm [] = Perm.refl []
  sort_by-Perm (x ∷ xs) = Perm.trans (insert-Perm x (sort_by xs)) (Perm.cons x (sort_by-Perm xs))
