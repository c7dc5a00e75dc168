-- ===== src/MapView/Markers/Passes.antt =====
-- The passes over the cache with the markers that are on the map, and over the cache alone.
use gps_connector.Prelude.{
  ◌≡◌, refl, inl, inr, Text, List, [], ◌∷◌, ◌++◌, if◌then◌else◌, Bool-cases,
}
use gps_connector.MapView.Markers.{
  Key, vehicle, cluster, Content, Entry, Feature, has_key, Cache, Layer, take_features, keeps,
  swept, sweep, reconcile_live_markers, prune_live_markers, clear_live_markers,
}
use gps_connector.MapView.Markers.Sweep.{cut, cut_out}

-- What happens to the cache: a frame of the map with the features of its source, new vehicles, and the end.
pub data Operation (Num : Type 0) : Type 0 where
  reconciles : List (Feature Num) → Operation Num
  prunes : List Text → Operation Num
  clears : Operation Num

module _ {Num : Type 0} where
  -- The markers that a pass leaves on the map stay there.
  abbrev after : Layer Num → Layer Num → Layer Num
  after before layer = record { cache = layer.cache; stray = before.stray ++ layer.stray }

  unfoldable pub operate : Operation Num → Layer Num → Layer Num
  operate (reconciles features) layer = after layer (reconcile_live_markers features layer.cache)
  operate (prunes ids) layer = after layer (prune_live_markers ids layer.cache)
  operate clears layer = after layer (clear_live_markers layer.cache)

  -- Oldest first.
  unfoldable pub run : List (Operation Num) → Layer Num → Layer Num
  run [] layer = layer
  run (o ∷ os) layer = run os (operate o layer)

  -- The passes as they are for the cache alone.
  unfoldable pub only_listed : List Text → Cache Num → Cache Num
  only_listed ids [] = []
  only_listed ids ((k, e) ∷ cache) =
      let rest = only_listed ids cache in if keeps ids k e.content then (k, e) ∷ rest else rest

  unfoldable pub next : Operation Num → Cache Num → Cache Num
  next (reconciles features) cache =
      let state = take_features features ([], cache) in cut state.0 state.1
  next (prunes ids) cache = only_listed ids cache
  next clears cache = []

  unfoldable pub run_cache : List (Operation Num) → Cache Num → Cache Num
  run_cache [] cache = cache
  run_cache (o ∷ os) cache = run_cache os (next o cache)

  abbrev pub clean : Cache Num → Layer Num
  clean cache = record { cache = cache; stray = [] }

  swept-cut_out :
      (c : Content) (k : Key) (e : Entry Num) (rest : Cache Num)
      → swept c k e (clean rest) ≡ clean (cut_out c k e rest)
  swept-cut_out (vehicle s) k e rest = refl
  swept-cut_out (cluster n d) k e rest = refl

  sweep-cut :
      (present : List Key) (cache : Cache Num) → sweep present cache ≡ clean (cut present cache)
  unfolding sweep cut
  sweep-cut present [] = refl
  sweep-cut present ((k, e) ∷ cache) = elim (Bool-cases (has_key k present)) [
    | inl p ↦ rw (p, sweep-cut present cache) refl
    | inr p ↦ rw (p, sweep-cut present cache) (swept-cut_out e.content k e (cut present cache))
  ]

  prune-only_listed :
      (ids : List Text) (cache : Cache Num)
      → prune_live_markers ids cache ≡ clean (only_listed ids cache)
  unfolding prune_live_markers only_listed
  prune-only_listed ids [] = refl
  prune-only_listed ids ((k, e) ∷ cache) = elim (Bool-cases (keeps ids k e.content)) [
    | inl p ↦ rw (p, prune-only_listed ids cache) refl
    | inr p ↦ rw (p, prune-only_listed ids cache) refl
  ]

  cleared : (cache : Cache Num) → clear_live_markers cache ≡ clean []
  unfolding clear_live_markers
  cleared [] = refl
  cleared ((k, e) ∷ cache) = cleared cache

  operate-next :
      (o : Operation Num) (cache : Cache Num) → operate o (clean cache) ≡ clean (next o cache)
  unfolding operate next reconcile_live_markers
  operate-next (reconciles features) cache =
      let state = take_features features ([], cache) in rw (sweep-cut state.0 state.1) refl
  operate-next (prunes ids) cache = rw (prune-only_listed ids cache) refl
  operate-next clears cache = rw (cleared cache) refl

  pub run-run_cache :
      (os : List (Operation Num)) (cache : Cache Num)
      → run os (clean cache) ≡ clean (run_cache os cache)
  unfolding run run_cache
  run-run_cache [] cache = refl
  run-run_cache (o ∷ os) cache = rw (operate-next o cache) (run-run_cache os (next o cache))
