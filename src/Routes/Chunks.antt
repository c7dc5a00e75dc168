-- ===== src/Routes/Chunks.antt =====
-- The chunks that one trip is sent to the map matcher in.
use gps_connector.Prelude.{
  ℕ, zero, suc, ◌-◌, ◌≤◌, ◌<◌, ◌≡◌, refl, ap, ◌∙◌, false, List, [], ◌∷◌, ◌++◌, arith, ltb,
  if◌then◌else◌, inl, inr, Bool-cases, length, take, drop, All,
}
use gps_connector.Routes.{chunks_from, chunk_positions}

two_or_more : (n : ℕ) → ltb (suc (suc n)) 2 ≡ false
two_or_more n = ground arith

module _ {ℓ} {A : Type ℓ} where
  -- The pairs of neighbours, in order: the stretches of road between two positions.
  abbrev pub edges : List A → List (A × A)
  edges [] = []
  edges (x ∷ []) = []
  edges (x ∷ y ∷ xs) = (x, y) ∷ edges (y ∷ xs)

  abbrev pub all_edges : List (List A) → List (A × A)
  all_edges [] = []
  all_edges (c ∷ cs) = edges c ++ all_edges cs

  length-drop : (n : ℕ) (xs : List A) → length (drop n xs) ≡ length xs - n
  length-drop zero xs = omega arith
  length-drop (suc n) [] = omega arith
  length-drop (suc n) (x ∷ xs) = omega (arith, length-drop n xs)

  length-take-le : (n : ℕ) (xs : List A) → length (take n xs) ≤ n
  length-take-le zero xs = omega arith
  length-take-le (suc n) [] = omega arith
  length-take-le (suc n) (x ∷ xs) = omega (arith, length-take-le n xs)

  -- Two pieces that share one position have all edges between them.
  edges-take-drop : (k : ℕ) (xs : List A) → edges (take (suc k) xs) ++ edges (drop k xs) ≡ edges xs
  edges-take-drop zero [] = refl
  edges-take-drop zero (x ∷ xs) = refl
  edges-take-drop (suc k) [] = refl
  edges-take-drop (suc zero) (x ∷ []) = refl
  edges-take-drop (suc (suc k)) (x ∷ []) = refl
  edges-take-drop (suc k) (x ∷ y ∷ xs) = ap (λ r. (x, y) ∷ r) (edges-take-drop k (y ∷ xs))

  short-edges : (xs : List A) → length xs < 2 → edges xs ≡ []
  short-edges [] h = refl
  short-edges (x ∷ []) h = refl
  short-edges (x ∷ y ∷ xs) h = absurd (omega arith)

  chunks_from-edges :
      (fuel : ℕ) (xs : List A) → length xs ≤ fuel → all_edges (chunks_from fuel xs) ≡ edges xs
  unfolding chunks_from
  chunks_from-edges zero [] h = refl
  chunks_from-edges zero (x ∷ xs) h = absurd (omega arith)
  chunks_from-edges (suc fuel) [] h = refl
  chunks_from-edges (suc fuel) (x ∷ []) h = refl
  chunks_from-edges (suc fuel) (x ∷ y ∷ xs) h = rw (two_or_more (length (take 98 xs))) (
      ap (λ r. edges (take 100 (x ∷ y ∷ xs)) ++ r)
        (chunks_from-edges fuel (drop 99 (x ∷ y ∷ xs)) (omega (arith, length-drop 99 (x ∷ y ∷ xs))))
      ∙ edges-take-drop 99 (x ∷ y ∷ xs))

  -- Whatever the length of a trip, its chunks have, in order and each exactly once, all the pairs of
  -- neighbouring positions: no stretch of the trip is left out of the requests or sent twice.
  pub chunk_positions-edges : (xs : List A) → all_edges (chunk_positions xs) ≡ edges xs
  unfolding chunk_positions
  chunk_positions-edges xs = chunks_from-edges (length xs) xs (omega arith)

  abbrev pub IsRequestSize : List A → Type 0
  IsRequestSize c = (2 ≤ length c) × (length c ≤ 100)

  chunks_from-size : (fuel : ℕ) (xs : List A) → All IsRequestSize (chunks_from fuel xs)
  unfolding chunks_from
  chunks_from-size zero xs = tt
  chunks_from-size (suc fuel) [] = tt
  chunks_from-size (suc fuel) (x ∷ []) = tt
  chunks_from-size (suc fuel) (x ∷ y ∷ xs) = rw (two_or_more (length (take 98 xs))) (
    (omega arith, omega (arith, length-take-le 98 xs)),
    chunks_from-size fuel (drop 99 (x ∷ y ∷ xs)),
  )

  -- Every request names at least two positions and at most the hundred that the service takes.
  pub chunk_positions-size : (xs : List A) → All IsRequestSize (chunk_positions xs)
  unfolding chunk_positions
  chunk_positions-size xs = chunks_from-size (length xs) xs

  -- More rounds than there are positions change nothing.
  chunks_from_enough :
      (f g : ℕ) (xs : List A) → length xs ≤ f → length xs ≤ g → chunks_from f xs ≡ chunks_from g xs
  unfolding chunks_from
  chunks_from_enough zero zero xs h k = refl
  chunks_from_enough zero (suc g) [] h k = refl
  chunks_from_enough (suc f) zero [] h k = refl
  chunks_from_enough (suc f) (suc g) [] h k = refl
  chunks_from_enough zero (suc g) (x ∷ xs) h k = absurd (omega arith)
  chunks_from_enough (suc f) zero (x ∷ xs) h k = absurd (omega arith)
  chunks_from_enough (suc f) (suc g) (x ∷ xs) h k =
      let rest = x ∷ xs in
      elim (Bool-cases (ltb (length (take 100 rest)) 2)) [
        | inl e ↦ rw e refl
        | inr e ↦ rw e (
            ap (λ r. take 100 rest ∷ r)
              (chunks_from_enough f g (drop 99 rest) (shorter xs f e h) (shorter xs g e k)))
      ]
    where
      shorter :
          (xs : List A) (n : ℕ)
          → ltb (length (take 100 (x ∷ xs))) 2 ≡ false
          → length (x ∷ xs) ≤ suc n
          → length (drop 99 (x ∷ xs)) ≤ n
      shorter xs n e h = let l = length-drop 99 (x ∷ xs) in omega arith

  chunk_positions_loop :
      (xs : List A)
      → chunk_positions xs
        ≡ (if ltb (length xs) 2 then [] else take 100 xs ∷ chunk_positions (drop 99 xs))
  unfolding chunk_positions chunks_from
  chunk_positions_loop [] = refl
  chunk_positions_loop (x ∷ []) = refl
  chunk_positions_loop (x ∷ y ∷ xs) =
      let l = length-drop 99 (x ∷ y ∷ xs) in
      let rest = drop 99 (x ∷ y ∷ xs) in
      let below : length rest ≤ suc (length xs) = omega arith in
      let same = chunks_from_enough (suc (length xs)) (length rest) rest below (omega arith) in
      rw (two_or_more (length (take 98 xs)), two_or_more (length xs))
        (ap (λ r. take 100 (x ∷ y ∷ xs) ∷ r) same)

  -- The loop over the positions ends on every list, with the chunks that any larger number of rounds gives too,
  -- and it satisfies the equation of the loop without a bound on the rounds: below two positions there is
  -- no chunk, and otherwise there is one of the first hundred before those from the hundredth on.
  chunk_positions-ends :
      (xs : List A)
      → ((rounds : ℕ) → length xs ≤ rounds → chunks_from rounds xs ≡ chunk_positions xs)
        × (chunk_positions xs
            ≡ (if ltb (length xs) 2 then [] else take 100 xs ∷ chunk_positions (drop 99 xs)))
  unfolding chunk_positions
  chunk_positions-ends xs = (
    λ rounds h. chunks_from_enough rounds (length xs) xs h (omega arith),
    chunk_positions_loop xs,
  )
