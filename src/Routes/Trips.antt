-- ===== src/Routes/Trips.antt =====
-- What `splitIntoTrips` makes of the positions of a day.
use gps_connector.Prelude.{
  ◌≡◌, refl, sym, ap, ◌∙◌, inl, inr, ◌||◌, List, [], ◌∷◌, ◌++◌, if◌then◌else◌, Bool-cases,
  append_assoc, append-nil,
}
use gps_connector.Client.{PositionRow}
use gps_connector.Geo.{Floats}
use gps_connector.Routes.{
  Split, is_near, is_stop, split_step, split_from, split_start, split_into_trips,
}

module _ {A : Type 0} where
  abbrev pub tails : List (List A) → List A
  tails [] = []
  tails ([] ∷ ts) = tails ts
  tails ((x ∷ xs) ∷ ts) = xs ++ tails ts

  tails-snoc :
      (ts : List (List A)) (x : A) (xs : List A) → tails (ts ++ (x ∷ xs) ∷ []) ≡ tails ts ++ xs
  tails-snoc [] x xs = append-nil xs
  tails-snoc ([] ∷ ts) x xs = tails-snoc ts x xs
  tails-snoc ((y ∷ ys) ∷ ts) x xs =
      ap (λ r. ys ++ r) (tails-snoc ts x xs) ∙ sym (append_assoc ys (tails ts) xs)

  abbrev pub last_of : A → List A → A
  last_of x [] = x
  last_of x (y ∷ ys) = last_of y ys

  pub last_of-snoc : (x : A) (xs : List A) (y : A) → last_of x (xs ++ y ∷ []) ≡ y
  last_of-snoc x [] y = refl
  last_of-snoc x (z ∷ xs) y = last_of-snoc z xs y

module _ (fl : Floats) where
  open fl use {Num}

  -- The positions of a day without those within the stop radius of the last one that was kept.
  abbrev pub thin : PositionRow Num → List (PositionRow Num) → List (PositionRow Num)
  thin anchor [] = []
  thin anchor (p ∷ ps) =
      let dropped = thin anchor ps in
      let kept = p ∷ thin p ps in if is_near fl anchor p then dropped else kept

  -- The trip under way is not empty and ends at the anchor.
  pub record IsOpen (s : Split (PositionRow Num)) : Type 0 where
    pub first : PositionRow Num
    pub others : List (PositionRow Num)
    pub is_trip : s.trip ≡ first ∷ others
    pub ends : last_of first others ≡ s.anchor

  abbrev pub all_trips : Split (PositionRow Num) → List (List (PositionRow Num))
  all_trips s = s.trips ++ s.trip ∷ []

  pub step-IsOpen :
      (s : Split (PositionRow Num)) (p : PositionRow Num) → IsOpen s → IsOpen (split_step fl s p)
  unfolding split_step
  step-IsOpen s p o = elim (Bool-cases (is_near fl s.anchor p)) [
    | inl near ↦
        rw near (record { first = o.first; others = o.others; is_trip = o.is_trip; ends = o.ends })
    | inr far ↦ rw far (elim (Bool-cases (s.stopped || is_stop fl s.previous p)) [
      | inl cut ↦
          rw cut
            (record { first = s.last_near_anchor; others = p ∷ []; is_trip = refl; ends = refl })
      | inr same ↦ rw same (record {
        first = o.first;
        others = o.others ++ p ∷ [];
        is_trip = ap (λ t. t ++ p ∷ []) o.is_trip;
        ends = last_of-snoc o.first o.others p;
      })
    ])
  ]

  kept-tails :
      (trips : List (List (PositionRow Num))) (trip : List (PositionRow Num))
      (first : PositionRow Num) (others : List (PositionRow Num)) (p : PositionRow Num)
      → trip ≡ first ∷ others
      → tails (trips ++ (trip ++ p ∷ []) ∷ []) ≡ tails (trips ++ trip ∷ []) ++ p ∷ []
  kept-tails trips trip first others p e =
      ap (λ t. tails (trips ++ (t ++ p ∷ []) ∷ [])) e
      ∙ tails-snoc trips first (others ++ p ∷ [])
      ∙ sym (append_assoc (tails trips) others (p ∷ []))
      ∙ ap (λ r. r ++ p ∷ [])
          (sym (tails-snoc trips first others) ∙ ap (λ t. tails (trips ++ t ∷ [])) (sym e))

  step-thin :
      (s : Split (PositionRow Num)) (p : PositionRow Num) (ps : List (PositionRow Num))
      → IsOpen s
      → tails (all_trips (split_step fl s p)) ++ thin (split_step fl s p).anchor ps
        ≡ tails (all_trips s) ++ thin s.anchor (p ∷ ps)
  unfolding split_step
  step-thin s p ps o = elim (Bool-cases (is_near fl s.anchor p)) [
    | inl near ↦ rw near
    | inr far ↦ rw far (elim (Bool-cases (s.stopped || is_stop fl s.previous p)) [
      | inl cut ↦ rw cut (
          ap (λ r. r ++ thin p ps) (tails-snoc (all_trips s) s.last_near_anchor (p ∷ []))
          ∙ append_assoc (tails (all_trips s)) (p ∷ []) (thin p ps))
      | inr same ↦ rw same (
          ap (λ r. r ++ thin p ps) (kept-tails s.trips s.trip o.first o.others p o.is_trip)
          ∙ append_assoc (tails (all_trips s)) (p ∷ []) (thin p ps))
    ])
  ]

  from-thin :
      (s : Split (PositionRow Num)) (ps : List (PositionRow Num))
      → IsOpen s
      → tails (all_trips (split_from fl s ps)) ≡ tails (all_trips s) ++ thin s.anchor ps
  unfolding split_from
  from-thin s [] o = sym (append-nil (tails (all_trips s)))
  from-thin s (p ∷ ps) o = from-thin (split_step fl s p) ps (step-IsOpen s p o) ∙ step-thin s p ps o

  pub start-IsOpen : (first : PositionRow Num) → IsOpen (split_start fl first)
  start-IsOpen first = record { first = first; others = []; is_trip = refl; ends = refl }

  -- The positions of the trips, less the first of each trip, are in order exactly those of the day that
  -- left the stop radius of the last one kept: stops decide where trips are cut, and never lose,
  -- repeat or reorder a movement.
  pub split_into_trips-thin :
      (first : PositionRow Num) (rest : List (PositionRow Num))
      → tails (split_into_trips fl first rest) ≡ thin first rest
  unfolding split_into_trips
  split_into_trips-thin first rest = from-thin (split_start fl first) rest (start-IsOpen first)
