-- ===== src/MapView/Markers/Sweep.antt =====
-- The loop of a reconciliation over the cache: what it takes off the map.
use gps_connector.Prelude.{
  ◌≡◌, refl, ap, sym, ◌∙◌, inl, inr, true, false, List, [], ◌∷◌, Option, none, if◌then◌else◌, arith,
  Bool-cases, if_intro,
}
use gps_connector.MapView.Markers.{
  Key, vehicle, cluster, key_eq, Content, Entry, has_key, Cache, lookup, removed,
}
use gps_connector.MapView.Markers.Keys.{key_eq_sound}
use gps_connector.MapView.Markers.Drawn.{Mark, drawn, AreFaithful}

module _ {Num : Type 0} where
  abbrev pub cut_out : Content → Key → Entry Num → Cache Num → Cache Num
  cut_out (vehicle _) k e rest = (k, removed e) ∷ rest
  cut_out (cluster _ _) k e rest = rest

  -- What the loop leaves of the cache.
  unfoldable pub cut : List Key → Cache Num → Cache Num
  cut present [] = []
  cut present ((k, e) ∷ cache) =
      let rest = cut present cache in
      if has_key k present then (k, e) ∷ rest else cut_out e.content k e rest

  pub cut-AreFaithful :
      (present : List Key) (cache : Cache Num) → AreFaithful cache → AreFaithful (cut present cache)
  unfolding cut
  cut-AreFaithful present [] h = tt
  cut-AreFaithful present ((k, e) ∷ cache) (h, hs) =
      let rest = cut-AreFaithful present cache hs in
      if_intro AreFaithful (has_key k present) ((k, e) ∷ cut present cache)
        (cut_out e.content k e (cut present cache)) (λ _. (h, rest)) (λ _. goes e.content rest)
    where
      goes :
          (c : Content)
          → AreFaithful (cut present cache)
          → AreFaithful (cut_out c k e (cut present cache))
      goes (vehicle s) r = (h, r)
      goes (cluster n d) r = r

  abbrev pub present_mark : Key → List Key → Option (Mark Num) → Option (Mark Num)
  present_mark k present m = if has_key k present then m else none

  cut_cons :
      (k j : Key) (e : Entry Num) (present : List Key) (rest cache : Cache Num)
      → drawn rest k ≡ present_mark k present (drawn cache k)
      → drawn (if has_key j present then (j, e) ∷ rest else cut_out e.content j e rest) k
        ≡ present_mark k present (drawn ((j, e) ∷ cache) k)
  unfolding lookup
  cut_cons k j e present rest cache ih =
      if_intro (λ (c : Cache Num). drawn c k ≡ present_mark k present (drawn ((j, e) ∷ cache) k))
        (has_key j present) ((j, e) ∷ rest) (cut_out e.content j e rest) stays (goes e.content)
    where
      same : key_eq j k ≡ true → has_key j present ≡ has_key k present
      same q = ap (λ x. has_key x present) (key_eq_sound j k q)

      stays :
          has_key j present ≡ true
          → drawn ((j, e) ∷ rest) k ≡ present_mark k present (drawn ((j, e) ∷ cache) k)
      stays p = elim (Bool-cases (key_eq j k)) [
        | inl q ↦ rw (q, sym (same q) ∙ p) refl
        | inr q ↦ rw q ih
      ]

      goes :
          (c : Content)
          → has_key j present ≡ false
          → drawn (cut_out c j e rest) k ≡ present_mark k present (drawn ((j, e) ∷ cache) k)
      goes (vehicle s) p = elim (Bool-cases (key_eq j k)) [
        | inl q ↦ rw (q, sym (same q) ∙ p) refl
        | inr q ↦ rw q ih
      ]
      goes (cluster n d) p = elim (Bool-cases (key_eq j k)) [
        | inl q ↦ ih ∙ rw (sym (same q) ∙ p) refl
        | inr q ↦ rw q ih
      ]

  -- After the loop only the keys that are present are drawn.
  pub cut-drawn :
      (k : Key) (present : List Key) (cache : Cache Num)
      → drawn (cut present cache) k ≡ present_mark k present (drawn cache k)
  unfolding cut lookup
  cut-drawn k present [] = ground arith
  cut-drawn k present ((j, e) ∷ cache) =
      cut_cons k j e present (cut present cache) cache (cut-drawn k present cache)
