-- ===== src/Routes/Fetch/Given.antt =====
-- Where the positions of the trips come from.
use gps_connector.Prelude.{
  ℕ, subst, arith, inl, inr, ◌||◌, List, [], ◌∷◌, All, All-append, IsIn, Bool-cases, leb, if_intro,
  some, ◌≡◌, refl,
}
use gps_connector.Prelude.Sort.{insert_by, sort_by}
use gps_connector.Client.{PositionRow}
use gps_connector.Geo.{Floats}
use gps_connector.Routes.{
  Split, split_step, split_from, split_start, split_into_trips, is_near, is_stop,
  trip_movement_start,
}
use gps_connector.Routes.Stitch.{last?}

module _ {A : Type 0} where
  All-weaken : (P Q : A → Type 0) → ((x : A) → P x → Q x) → (xs : List A) → All P xs → All Q xs
  All-weaken P Q f [] h = tt
  All-weaken P Q f (x ∷ xs) (h, hs) = (f x h, All-weaken P Q f xs hs)

  pub each_member : (xs : List A) → All (λ x. IsIn x xs) xs
  each_member [] = tt
  each_member (x ∷ xs) = (
    inl refl,
    All-weaken (λ y. IsIn y xs) (λ y. IsIn y (x ∷ xs)) (λ y h. inr h) xs (each_member xs),
  )

  module _ (P : A → Type 0) where
    insert_by-All :
        (key : A → ℕ) (x : A) (ys : List A) → P x → All P ys → All P (insert_by key x ys)
    unfolding insert_by
    insert_by-All key x [] h k = (h, tt)
    insert_by-All key x (y ∷ ys) h (k, ks) =
        if_intro (All P) (leb (key x) (key y)) (x ∷ y ∷ ys) (y ∷ insert_by key x ys)
          (λ _. (h, (k, ks))) (λ _. (k, insert_by-All key x ys h ks))

    pub sort_by-All : (key : A → ℕ) (xs : List A) → All P xs → All P (sort_by key xs)
    unfolding sort_by
    sort_by-All key [] h = tt
    sort_by-All key (x ∷ xs) (h, hs) =
        insert_by-All key x (sort_by key xs) h (sort_by-All key xs hs)

    pub last?-All : (xs : List A) (x : A) → All P xs → last? xs ≡ some x → P x
    last?-All [] x h e = cc
    last?-All (y ∷ []) x (h, _) e = (let same : y ≡ x = cc in subst P same h)
    last?-All (y ∷ z ∷ xs) x (_, hs) e = last?-All (z ∷ xs) x hs e

module _ (fl : Floats) (P : PositionRow fl.Num → Type 0) where
  open fl use {Num}

  record IsGiven (s : Split (PositionRow Num)) : Type 0 where
    trips : All (All P) s.trips
    trip : All P s.trip
    near : P s.last_near_anchor

  step-IsGiven :
      (s : Split (PositionRow Num)) (p : PositionRow Num)
      → P p
      → IsGiven s
      → IsGiven (split_step fl s p)
  unfolding split_step
  step-IsGiven s p h g = elim (Bool-cases (is_near fl s.anchor p)) [
    | inl near ↦ rw near (record { trips = g.trips; trip = g.trip; near = h })
    | inr far ↦ elim (Bool-cases (s.stopped || is_stop fl s.previous p)) [
      | inl cut ↦
          rw (far, cut)
            (record {
              trips = All-append (All P) s.trips (s.trip ∷ []) g.trips (g.trip, tt);
              trip = (g.near, (h, tt));
              near = h;
            })
      | inr same ↦
          rw (far, same)
            (record {
              trips = g.trips;
              trip = All-append P s.trip (p ∷ []) g.trip (h, tt);
              near = h;
            })
    ]
  ]

  from-IsGiven :
      (s : Split (PositionRow Num)) (ps : List (PositionRow Num))
      → All P ps
      → IsGiven s
      → IsGiven (split_from fl s ps)
  unfolding split_from
  from-IsGiven s [] h g = g
  from-IsGiven s (p ∷ ps) (h, hs) g = from-IsGiven (split_step fl s p) ps hs (step-IsGiven s p h g)

  pub split_into_trips-All :
      (first : PositionRow Num) (rest : List (PositionRow Num))
      → P first
      → All P rest
      → All (All P) (split_into_trips fl first rest)
  unfolding split_into_trips
  split_into_trips-All first rest h hs =
      let g =
        from-IsGiven (split_start fl first) rest hs
          (record { trips = tt; trip = (h, tt); near = h }) in
      let s = split_from fl (split_start fl first) rest in
      All-append (All P) s.trips (s.trip ∷ []) g.trips (g.trip, tt)

  -- The time at which a trip starts to move is that of one of its positions.
  pub movement_start-of :
      (trip : List (PositionRow Num)) (t : ℕ)
      → All P trip
      → trip_movement_start fl trip ≡ some t
      → (p : PositionRow Num) × P p × (p.device_timestamp ≡ t)
  unfolding trip_movement_start
  movement_start-of [] t h e = cc
  movement_start-of (p ∷ []) t (h, _) e = (p, h, ground arith)
  movement_start-of (p ∷ q ∷ ps) t (h, (k, _)) e = elim (Bool-cases (is_stop fl p q)) [
    | inl y ↦ (q, k, ground (arith, e))
    | inr n ↦ (p, h, ground (arith, e))
  ]
