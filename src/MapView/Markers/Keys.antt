-- ===== src/MapView/Markers/Keys.antt =====
-- The keys of the cache of markers, and what a reconciliation does with them.
use gps_connector.Prelude.{
  ◌≡◌, refl, ap, ◌∙◌, inl, inr, Bool, true, ◌||◌, List, [], ◌∷◌, Option, none, some, ==_iff,
  if◌then◌else◌, text_eq_sound, arith, Bool-cases, is_some,
}
use gps_connector.Routes.Stitch.{Position}
use gps_connector.Locations.{driving, stationary}
use gps_connector.MapView.Markers.{
  Key, vehicle, cluster, key_eq, Content, Entry, Feature, cluster_point, vehicle_point, other,
  has_key, Cache, lookup, put, take_feature, take_point, take_features, same_content,
}

pub key_eq_sound : (a b : Key) → key_eq a b ≡ true → a ≡ b
unfolding key_eq
key_eq_sound (vehicle a) (vehicle b) h = ap vehicle (text_eq_sound a b h)
key_eq_sound (cluster a) (cluster b) h = ap cluster ((==_iff a b).0 h)
key_eq_sound (vehicle a) (cluster b) h = cc
key_eq_sound (cluster a) (vehicle b) h = cc

pub same_content_sound : (a b : Content) → same_content a b ≡ true → a ≡ b
same_content_sound (vehicle driving) (vehicle driving) h = refl
same_content_sound (vehicle stationary) (vehicle stationary) h = refl
same_content_sound (vehicle driving) (vehicle stationary) h = cc
same_content_sound (vehicle stationary) (vehicle driving) h = cc
same_content_sound (cluster n d) (cluster m e) h = ground arith
same_content_sound (vehicle s) (cluster m e) h = cc
same_content_sound (cluster n d) (vehicle s) h = cc

module _ {Num : Type 0} where
  -- What the first feature of a key says of it, and its place.
  abbrev pub first_feature : Key → List (Feature Num) → Option (Content × Position Num)
  first_feature k [] = none
  first_feature k (other ∷ fs) = first_feature k fs
  first_feature k (cluster_point id count moving place ∷ fs) =
      let rest = first_feature k fs in
      if key_eq (cluster id) k then some (cluster count moving, place) else rest
  first_feature k (vehicle_point id status place ∷ fs) =
      let rest = first_feature k fs in
      if key_eq (vehicle id) k then some (vehicle status, place) else rest

  pub lookup-put :
      (k j : Key) (e : Entry Num) (cache : Cache Num)
      → lookup k (put j e cache) ≡ (if key_eq j k then some e else lookup k cache)
  unfolding lookup put
  lookup-put k j e [] = refl
  lookup-put k j e ((i, f) ∷ cache) = elim (Bool-cases (key_eq i j)) [
    | inl p ↦ rw (p, key_eq_sound i j p) (ground arith)
    | inr p ↦ rw p (ground (arith, lookup-put k j e cache, key_eq_sound i k, key_eq_sound j k))
  ]

  pub point-present :
      (k j : Key) (content : Content) (place : Position Num) (state : List Key × Cache Num)
      → has_key k (take_point j content place state).0 ≡ (key_eq j k || has_key k state.0)
  unfolding take_point has_key
  point-present k j content place (present, cache) =
      let same = key_eq_sound j k in ground (arith, same)

  first_of_point :
      (k j : Key) (a : Content × Position Num) (rest : Option (Content × Position Num)) (b : Bool)
      → (is_some rest || (key_eq j k || b)) ≡ (is_some (if key_eq j k then some a else rest) || b)
  first_of_point k j a none b = ground arith
  first_of_point k j a (some r) b = ground arith

  pub features-present :
      (k : Key) (fs : List (Feature Num)) (state : List Key × Cache Num)
      → has_key k (take_features fs state).0 ≡ (is_some (first_feature k fs) || has_key k state.0)
  unfolding take_features take_feature
  features-present k [] state = refl
  features-present k (other ∷ fs) state = features-present k fs state
  features-present k (cluster_point id n d place ∷ fs) state =
      features-present k fs (take_point (cluster id) (cluster n d) place state)
      ∙ ap (λ b. is_some (first_feature k fs) || b)
          (point-present k (cluster id) (cluster n d) place state)
      ∙ first_of_point k (cluster id) (cluster n d, place) (first_feature k fs) (has_key k state.0)
  features-present k (vehicle_point id s place ∷ fs) state =
      features-present k fs (take_point (vehicle id) (vehicle s) place state)
      ∙ ap (λ b. is_some (first_feature k fs) || b)
          (point-present k (vehicle id) (vehicle s) place state)
      ∙ first_of_point k (vehicle id) (vehicle s, place) (first_feature k fs) (has_key k state.0)
