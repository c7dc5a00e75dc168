-- ===== src/MapView/Markers/Drawn.antt =====
-- What the markers on the map show, and how the features of the source change it.
use gps_connector.Prelude.{
  ◌≡◌, refl, ap, ◌∙◌, inl, inr, Bool, true, false, ◌||◌, List, [], ◌∷◌, Option, none, some,
  if◌then◌else◌, arith, Bool-cases, subst, sym, All,
}
use gps_connector.Routes.Stitch.{Position}
use gps_connector.MapView.Markers.{
  Key, vehicle, cluster, key_eq, Content, Entry, Feature, cluster_point, vehicle_point, other,
  has_key, Cache, lookup, put, entry_for, take_feature, take_point, take_features,
}
use gps_connector.MapView.Markers.Keys.{
  key_eq_sound, same_content_sound, first_feature, lookup-put, point-present,
}

-- Whether what a marker shows is of its key's kind: the types that the code gives the cached entries.
abbrev pub IsOfKey : Key → Content → Type 0
IsOfKey (vehicle _) (vehicle _) = Unit
IsOfKey (cluster _) (cluster _ _) = Unit
IsOfKey _ _ = ⊥

abbrev pub Mark : Type 0 → Type 0
Mark Num = Content × Position Num

module _ {Num : Type 0} where
  -- What is rendered in a marker that is on the map, and its place.
  abbrev pub mark_of : Option (Entry Num) → Option (Mark Num)
  mark_of none = none
  mark_of (some e) = if e.on_screen then some (e.rendered, e.place) else none

  abbrev pub drawn : Cache Num → Key → Option (Mark Num)
  drawn cache k = mark_of (lookup k cache)

  -- A marker of the cache has been rendered with what it stands for.
  abbrev pub IsFaithful : Key × Entry Num → Type 0
  IsFaithful (k, e) = (e.rendered ≡ e.content) × IsOfKey k e.content

  abbrev pub AreFaithful : Cache Num → Type 0
  AreFaithful cache = All IsFaithful cache

  lookup-IsFaithful :
      (k : Key) (cache : Cache Num)
      → AreFaithful cache
      → (e : Entry Num) → lookup k cache ≡ some e
      → IsFaithful (k, e)
  unfolding lookup
  lookup-IsFaithful k [] h e p = cc
  lookup-IsFaithful k ((j, f) ∷ cache) (h, hs) e p = elim (Bool-cases (key_eq j k)) [
    | inl q ↦
        let same : f ≡ e = ground arith in
        subst (λ x. IsFaithful (x, e)) (key_eq_sound j k q) (subst (λ x. IsFaithful (j, x)) same h)
    | inr q ↦ lookup-IsFaithful k cache hs e (ground arith)
  ]

  put-AreFaithful :
      (k : Key) (e : Entry Num) (cache : Cache Num)
      → IsFaithful (k, e)
      → AreFaithful cache
      → AreFaithful (put k e cache)
  unfolding put
  put-AreFaithful k e [] h hs = (h, tt)
  put-AreFaithful k e ((j, f) ∷ cache) h (g, gs) = elim (Bool-cases (key_eq j k)) [
    | inl q ↦ rw (q, key_eq_sound j k q) (h, gs)
    | inr q ↦ rw q (g, put-AreFaithful k e cache h gs)
  ]

  entry_for_content :
      (content : Content) (place : Position Num) (o : Option (Entry Num))
      → (entry_for content place o).content ≡ content
  unfolding entry_for
  entry_for_content content place none = refl
  entry_for_content content place (some e) = ground arith

  entry_for_rendered :
      (k : Key) (content : Content) (place : Position Num) (o : Option (Entry Num))
      → ((e : Entry Num) → o ≡ some e → IsFaithful (k, e))
      → (entry_for content place o).rendered ≡ content
  unfolding entry_for
  entry_for_rendered k content place none h = refl
  entry_for_rendered k content place (some e) h =
      let same = same_content_sound e.content content in
      let (faithful, _) = h e refl in ground (arith, same, faithful)

  entry_for_mark :
      (content : Content) (place : Position Num) (o : Option (Entry Num))
      → (entry_for content place o).rendered ≡ content
      → mark_of (some (entry_for content place o)) ≡ some (content, place)
  unfolding entry_for
  entry_for_mark content place none h = refl
  entry_for_mark content place (some e) h = ground (arith, h)

  -- After a feature, its marker shows it, and the other markers are as they were.
  point_lem :
      (k j : Key) (content : Content) (place : Position Num) (state : List Key × Cache Num)
      → IsOfKey j content
      → AreFaithful state.1
      → AreFaithful (take_point j content place state).1
        × (drawn (take_point j content place state).1 k ≡ (
            if has_key j state.0
            then drawn state.1 k
            else if key_eq j k
            then some (content, place)
            else drawn state.1 k))
  unfolding take_point
  point_lem k j content place (present, cache) t h = elim (Bool-cases (has_key j present)) [
    | inl p ↦ rw p (h, refl)
    | inr p ↦
        let o = lookup j cache in
        let r = entry_for_rendered j content place o (lookup-IsFaithful j cache h) in
        let c = entry_for_content content place o in
        rw p (
          put-AreFaithful j (entry_for content place o) cache
              (r ∙ sym c, subst (IsOfKey j) (sym c) t) h,
          ap mark_of (lookup-put k j (entry_for content place o) cache)
              ∙ chosen (entry_for content place o) (entry_for_mark content place o r),
        )
  ]
    where
      chosen :
          (e : Entry Num)
          → mark_of (some e) ≡ some (content, place)
          → mark_of (if key_eq j k then some e else lookup k cache)
            ≡ (if key_eq j k then some (content, place) else drawn cache k)
      chosen e m = elim (Bool-cases (key_eq j k)) [ inl q ↦ rw q m | inr q ↦ rw q refl ]

  abbrev pub or_mark : Option (Mark Num) → Option (Mark Num) → Option (Mark Num)
  or_mark none b = b
  or_mark (some a) b = some a

  -- One feature before the others: of two features of a key, the first one counts.
  feature_step :
      (same before here : Bool) (m : Mark Num) (first old new : Option (Mark Num))
      → (same ≡ true → before ≡ here)
      → new ≡ (if before then old else if same then some m else old)
      → (if same || here then new else or_mark first new)
        ≡ (if here then old else or_mark (if same then some m else first) old)
  feature_step true true true m first old new h e = e
  feature_step true false false m first old new h e = e
  feature_step true true false m first old new h e = cc (h refl)
  feature_step true false true m first old new h e = cc (h refl)
  feature_step false true true m first old new h e = e
  feature_step false true false m first old new h e = ap (or_mark first) e
  feature_step false false true m first old new h e = e
  feature_step false false false m first old new h e = ap (or_mark first) e

  abbrev pub FeaturesDrawn : Key → List (Feature Num) → List Key × Cache Num → Type 0
  FeaturesDrawn k fs state =
      AreFaithful (take_features fs state).1
      × (drawn (take_features fs state).1 k ≡ (
          if has_key k state.0
          then drawn state.1 k
          else or_mark (first_feature k fs) (drawn state.1 k)))

  point_before :
      (k j : Key) (content : Content) (place : Position Num) (fs : List (Feature Num))
      (state : List Key × Cache Num)
      → IsOfKey j content
      → AreFaithful state.1
      → (AreFaithful (take_point j content place state).1
          → FeaturesDrawn k fs (take_point j content place state))
      → AreFaithful (take_features fs (take_point j content place state)).1
        × (drawn (take_features fs (take_point j content place state)).1 k ≡ (
            if has_key k state.0
            then drawn state.1 k
            else or_mark
                (if key_eq j k then some (content, place) else first_feature k fs)
                (drawn state.1 k)))
  point_before k j content place fs state t h later =
      let (faithful, point) = point_lem k j content place state t h in
      let (after, rest) = later faithful in
      let new = drawn (take_point j content place state).1 k in
      let with_key =
        ap (λ b. if b then new else or_mark (first_feature k fs) new)
          (point-present k j content place state) in
      let step =
        feature_step (key_eq j k) (has_key j state.0) (has_key k state.0) (content, place)
          (first_feature k fs) (drawn state.1 k) new
          (λ q. ap (λ x. has_key x state.0) (key_eq_sound j k q)) point in
      (after, rest ∙ with_key ∙ step)

  pub features_lem :
      (k : Key) (fs : List (Feature Num)) (state : List Key × Cache Num)
      → AreFaithful state.1
      → FeaturesDrawn k fs state
  unfolding take_features take_feature
  features_lem k [] state h = (h, ground arith)
  features_lem k (other ∷ fs) state h = features_lem k fs state h
  features_lem k (cluster_point id n d place ∷ fs) state h =
      point_before k (cluster id) (cluster n d) place fs state tt h
        (features_lem k fs (take_point (cluster id) (cluster n d) place state))
  features_lem k (vehicle_point id s place ∷ fs) state h =
      point_before k (vehicle id) (vehicle s) place fs state tt h
        (features_lem k fs (take_point (vehicle id) (vehicle s) place state))
