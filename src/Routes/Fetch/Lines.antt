-- ===== src/Routes/Fetch/Lines.antt =====
-- The trips are not empty, and the segments that the matcher's answers give are lines.
use gps_connector.Prelude.{
  inl, inr, Bool, ◌&&◌, ◌||◌, Option, none, some, List, [], ◌∷◌, ◌++◌, arith, leb, length, filter,
  All, All-append, Bool-cases,
}
use gps_connector.Client.{PositionRow}
use gps_connector.Geo.{Floats}
use gps_connector.Promise.{Settled, fulfilled, rejected}
use gps_connector.Routes.{
  Split, split_step, split_from, split_start, split_into_trips, is_near, is_stop,
}
use gps_connector.Routes.Trips.{IsOpen, step-IsOpen, start-IsOpen}
use gps_connector.Routes.Stitch.Joined.{IsLine}
use gps_connector.Routes.Fetch.{
  Geometry, Matching, ChunkMatch, TripMatch, take_matching, take_matchings, no_match, take_chunk,
  take_chunks, is_line_string,
}

abbrev pub IsNonEmpty {ℓ} : {A : Type ℓ} → List A → Type 0
IsNonEmpty [] = ⊥
IsNonEmpty (_ ∷ _) = Unit

pub All-filter {ℓ κ} :
    {A : Type ℓ} (P : A → Type κ) (p : A → Bool) (xs : List A) → All P xs → All P (filter p xs)
All-filter P p [] h = tt
All-filter P p (x ∷ xs) (q, h) = elim (Bool-cases (p x)) [
  | inl e ↦ rw e (q, All-filter P p xs h)
  | inr e ↦ rw e (All-filter P p xs h)
]

module _ (fl : Floats) where
  open fl use {Num}

  open_trip : (s : Split (PositionRow Num)) → IsOpen fl s → IsNonEmpty s.trip
  open_trip s o = rw o.is_trip tt

  step-IsNonEmpty :
      (s : Split (PositionRow Num)) (p : PositionRow Num)
      → IsOpen fl s
      → All IsNonEmpty s.trips
      → All IsNonEmpty (split_step fl s p).trips
  unfolding split_step
  step-IsNonEmpty s p o h = elim (Bool-cases (is_near fl s.anchor p)) [
    | inl near ↦ rw near h
    | inr far ↦ elim (Bool-cases (s.stopped || is_stop fl s.previous p)) [
      | inl cut ↦ rw (far, cut) (All-append IsNonEmpty s.trips (s.trip ∷ []) h (open_trip s o, tt))
      | inr same ↦ rw (far, same) h
    ]
  ]

  from-IsNonEmpty :
      (s : Split (PositionRow Num)) (ps : List (PositionRow Num))
      → IsOpen fl s
      → All IsNonEmpty s.trips
      → All IsNonEmpty ((split_from fl s ps).trips ++ (split_from fl s ps).trip ∷ [])
  unfolding split_from
  from-IsNonEmpty s [] o h = All-append IsNonEmpty s.trips (s.trip ∷ []) h (open_trip s o, tt)
  from-IsNonEmpty s (p ∷ ps) o h =
      from-IsNonEmpty (split_step fl s p) ps (step-IsOpen fl s p o) (step-IsNonEmpty s p o h)

  pub split_into_trips-IsNonEmpty :
      (first : PositionRow Num) (rest : List (PositionRow Num))
      → All IsNonEmpty (split_into_trips fl first rest)
  unfolding split_into_trips
  split_into_trips-IsNonEmpty first rest =
      from-IsNonEmpty (split_start fl first) rest (start-IsOpen fl first) tt

  take_matching-lines :
      (c : ChunkMatch fl) (distance : Option Num) (g : Option (Geometry fl))
      → All IsLine c.segments
      → All IsLine (take_matching fl c distance g).segments
  unfolding take_matching
  take_matching-lines c distance none h = h
  take_matching-lines c distance (some g) h =
      elim (Bool-cases (is_line_string fl g.kind && leb 2 (length g.coordinates))) [
        | inl e ↦ rw e (All-append IsLine c.segments (g.coordinates ∷ []) h (ground arith, tt))
        | inr e ↦ rw e h
      ]

  take_matchings-lines :
      (c : ChunkMatch fl) (ms : List (Matching fl))
      → All IsLine c.segments
      → All IsLine (take_matchings fl c ms).segments
  unfolding take_matchings
  take_matchings-lines c [] h = h
  take_matchings-lines c (m ∷ ms) h =
      take_matchings-lines (take_matching fl c m.distance m.geometry) ms
        (take_matching-lines c m.distance m.geometry h)

  take_chunk-lines :
      (t : TripMatch fl) (r : Settled (List (Matching fl)))
      → All IsLine t.segments
      → All IsLine (take_chunk fl t r).segments
  unfolding take_chunk
  take_chunk-lines t (fulfilled ms) h =
      All-append IsLine t.segments _ h (take_matchings-lines (no_match fl) ms tt)
  take_chunk-lines t (rejected e) h = h

  pub take_chunks-lines :
      (t : TripMatch fl) (rs : List (Settled (List (Matching fl))))
      → All IsLine t.segments
      → All IsLine (take_chunks fl t rs).segments
  unfolding take_chunks
  take_chunks-lines t [] h = h
  take_chunks-lines t (r ∷ rs) h = take_chunks-lines (take_chunk fl t r) rs (take_chunk-lines t r h)
