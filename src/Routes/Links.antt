-- ===== src/Routes/Links.antt =====
-- How the trips of `splitIntoTrips` follow one another, and when there is one only.
use gps_connector.Prelude.{
  ℕ, ◌+◌, ◌≤◌, ◌<◌, ◌≡◌, refl, ◌⊎◌, inl, inr, true, false, ◌||◌, List, [], ◌∷◌, ◌++◌, arith, length,
  All, Bool-cases,
}
use gps_connector.Client.{PositionRow}
use gps_connector.Geo.{Floats}
use gps_connector.Routes.{
  Split, is_near, is_stop, split_step, split_from, split_start, split_into_trips,
  stop_min_duration_seconds,
}
use gps_connector.Routes.Trips.{last_of, IsOpen, step-IsOpen, start-IsOpen, all_trips}

module _ (fl : Floats) where
  open fl use {Num}

  -- A later trip starts where the one before it ended, or within the stop radius of that place.
  abbrev pub Joins : List (PositionRow Num) → List (PositionRow Num) → Type 0
  Joins (x ∷ xs) (y ∷ _) = (y ≡ last_of x xs) ⊎ (is_near fl (last_of x xs) y ≡ true)
  Joins _ _ = ⊥

  abbrev pub Linked : List (List (PositionRow Num)) → Type 0
  Linked [] = Unit
  Linked (t ∷ []) = Unit
  Linked (t ∷ u ∷ ts) = Joins t u × Linked (u ∷ ts)

  Linked-snoc :
      (ts : List (List (PositionRow Num))) (t u : List (PositionRow Num))
      → Linked (ts ++ t ∷ [])
      → Joins t u
      → Linked ((ts ++ t ∷ []) ++ u ∷ [])
  Linked-snoc [] t u l j = (j, tt)
  Linked-snoc (a ∷ []) t u l j = (l.0, (j, tt))
  Linked-snoc (a ∷ b ∷ ts) t u l j = (l.0, Linked-snoc (b ∷ ts) t u l.1 j)

  Linked-longer :
      (ts : List (List (PositionRow Num))) (x : PositionRow Num) (xs ys : List (PositionRow Num))
      → Linked (ts ++ (x ∷ xs) ∷ [])
      → Linked (ts ++ (x ∷ ys) ∷ [])
  Linked-longer [] x xs ys l = tt
  Linked-longer ((a ∷ as') ∷ []) x xs ys l = (l.0, tt)
  Linked-longer ([] ∷ []) x xs ys l = absurd l.0
  Linked-longer (a ∷ b ∷ ts) x xs ys l = (l.0, Linked-longer (b ∷ ts) x xs ys l.1)

  record IsLinked (s : Split (PositionRow Num)) : Type 0 where
    is_open : IsOpen fl s
    linked : Linked (all_trips fl s)
    near_anchor : (s.last_near_anchor ≡ s.anchor) ⊎ (is_near fl s.anchor s.last_near_anchor ≡ true)

  last_near_anchor-Joins :
      (s : Split (PositionRow Num)) (rest : List (PositionRow Num))
      → IsLinked s
      → Joins s.trip (s.last_near_anchor ∷ rest)
  last_near_anchor-Joins s rest l = rw (l.is_open.is_trip, l.is_open.ends) l.near_anchor

  longer_trip :
      (s : Split (PositionRow Num)) (p : PositionRow Num)
      → IsLinked s
      → Linked (s.trips ++ (s.trip ++ p ∷ []) ∷ [])
  longer_trip s p l = rw l.is_open.is_trip (
      Linked-longer s.trips l.is_open.first l.is_open.others (l.is_open.others ++ p ∷ [])
        (rw l.is_open.is_trip at l.linked))

  step-IsLinked :
      (s : Split (PositionRow Num)) (p : PositionRow Num)
      → IsLinked s
      → IsLinked (split_step fl s p)
  unfolding split_step
  step-IsLinked s p l = elim (Bool-cases (is_near fl s.anchor p)) [
    | inl near ↦ record {
      is_open = step-IsOpen fl s p l.is_open;
      linked = rw near l.linked;
      near_anchor = rw near (inr near);
    }
    | inr far ↦ elim (Bool-cases (s.stopped || is_stop fl s.previous p)) [
      | inl cut ↦ record {
        is_open = step-IsOpen fl s p l.is_open;
        linked =
            rw (far, cut) (Linked-snoc s.trips s.trip _ l.linked (last_near_anchor-Joins s _ l));
        near_anchor = rw (far, cut) (inl refl);
      }
      | inr same ↦ record {
        is_open = step-IsOpen fl s p l.is_open;
        linked = rw (far, same) (longer_trip s p l);
        near_anchor = rw (far, same) (inl refl);
      }
    ]
  ]

  from-IsLinked :
      (s : Split (PositionRow Num)) (ps : List (PositionRow Num))
      → IsLinked s
      → IsLinked (split_from fl s ps)
  unfolding split_from
  from-IsLinked s [] l = l
  from-IsLinked s (p ∷ ps) l = from-IsLinked (split_step fl s p) ps (step-IsLinked s p l)

  -- Of the trips of `splitIntoTrips`, no trip is empty after another, and each starts where the one
  -- before it ended or within the stop radius of that place.
  pub split_into_trips-Linked :
      (first : PositionRow Num) (rest : List (PositionRow Num))
      → Linked (split_into_trips fl first rest)
  unfolding split_into_trips
  split_into_trips-Linked first rest =
      (from-IsLinked (split_start fl first) rest
        (record { is_open = start-IsOpen fl first; linked = tt; near_anchor = inl refl })).linked

  -- The times of the positions lie less than the stop duration after the first.
  abbrev pub IsWithin : ℕ → PositionRow Num → Type 0
  IsWithin start p =
      (start ≤ p.device_timestamp) × (p.device_timestamp < start + stop_min_duration_seconds)

  record IsSingle (start : ℕ) (s : Split (PositionRow Num)) : Type 0 where
    no_trips : s.trips ≡ []
    moving : s.stopped ≡ false
    anchor_within : IsWithin start s.anchor
    previous_within : IsWithin start s.previous

  step-IsSingle :
      (start : ℕ) (s : Split (PositionRow Num)) (p : PositionRow Num)
      → IsWithin start p
      → IsSingle start s
      → IsSingle start (split_step fl s p)
  unfolding split_step
  step-IsSingle start s p w i =
      ground (arith, i.no_trips, i.moving, i.anchor_within, i.previous_within)

  from-IsSingle :
      (start : ℕ) (s : Split (PositionRow Num)) (ps : List (PositionRow Num))
      → All (IsWithin start) ps
      → IsSingle start s
      → (split_from fl s ps).trips ≡ []
  unfolding split_from
  from-IsSingle start s [] w i = i.no_trips
  from-IsSingle start s (p ∷ ps) w i =
      from-IsSingle start (split_step fl s p) ps w.1 (step-IsSingle start s p w.0 i)

  -- If all positions lie within five minutes of the first, there is one trip.
  pub split_into_trips_short :
      (first : PositionRow Num) (rest : List (PositionRow Num))
      → All (IsWithin first.device_timestamp) rest
      → length (split_into_trips fl first rest) ≡ 1
  unfolding split_into_trips
  split_into_trips_short first rest w = rw (
      from-IsSingle first.device_timestamp (split_start fl first) rest w (record {
        no_trips = refl;
        moving = refl;
        anchor_within = omega arith;
        previous_within = omega arith;
      }))
