-- ===== src/Panel/Order.antt =====
-- The order of the vehicles in the list.
use gps_connector.Prelude.{
  ◌≡◌, refl, ap, subst, ◌∙◌, ◌&&◌, inl, inr, Text, Bool, true, false, List, [], ◌∷◌, filter, All,
  Bool-cases,
}
use mathlib.Core.List.{Perm}
use mathlib.Core.List.Perm
use gps_connector.Locations.{Status, driving, stationary, VehicleLocation}
use gps_connector.Panel.{
  StatusFilter, all, only, is_driving, compare_vehicles, by_status, insert_vehicle, sort_vehicles,
  passes, found_in, matched_vehicles, visible_vehicles,
}

-- Whether the filter asks for this status.
abbrev pub asks_for : StatusFilter → Status → Bool
asks_for all status = true
asks_for (only driving) driving = true
asks_for (only driving) stationary = false
asks_for (only stationary) driving = false
asks_for (only stationary) stationary = true

asks_lem :
    (status_filter : StatusFilter) (status : Status)
    → passes status_filter status ≡ asks_for status_filter status
asks_lem all status = refl
asks_lem (only driving) driving = refl
asks_lem (only driving) stationary = refl
asks_lem (only stationary) driving = refl
asks_lem (only stationary) stationary = refl

module _ {Num : Type 0} where
  abbrev IsStationary : VehicleLocation Num → Type 0
  IsStationary v = is_driving v.status ≡ false

  -- After a stationary vehicle there are only stationary ones.
  abbrev pub IsDrivingFirst : List (VehicleLocation Num) → Type 0
  IsDrivingFirst [] = Unit
  IsDrivingFirst (v ∷ vs) = (is_driving v.status ≡ false → All IsStationary vs) × IsDrivingFirst vs

  filter-IsStationary :
      (p : VehicleLocation Num → Bool) (vs : List (VehicleLocation Num))
      → All IsStationary vs
      → All IsStationary (filter p vs)
  filter-IsStationary p [] h = tt
  filter-IsStationary p (v ∷ vs) (h, hs) = elim (Bool-cases (p v)) [
    | inl e ↦ rw e (h, filter-IsStationary p vs hs)
    | inr e ↦ rw e (filter-IsStationary p vs hs)
  ]

  filter-IsDrivingFirst :
      (p : VehicleLocation Num → Bool) (vs : List (VehicleLocation Num))
      → IsDrivingFirst vs
      → IsDrivingFirst (filter p vs)
  filter-IsDrivingFirst p [] h = tt
  filter-IsDrivingFirst p (v ∷ vs) (h, hs) = elim (Bool-cases (p v)) [
    | inl e ↦ rw e (λ s. filter-IsStationary p vs (h s), filter-IsDrivingFirst p vs hs)
    | inr e ↦ rw e (filter-IsDrivingFirst p vs hs)
  ]

  module _ (locale_le : Text → Text → Bool) where
    driving_before :
        (v w : VehicleLocation Num)
        → compare_vehicles locale_le v w ≡ true
        → is_driving v.status ≡ false
        → is_driving w.status ≡ false
    unfolding compare_vehicles
    driving_before v w h s = by v.status w.status h s
      where
        by :
            (a b : Status)
            → by_status locale_le v w a b ≡ true
            → is_driving a ≡ false
            → is_driving b ≡ false
        by driving b h s = cc
        by stationary driving h s = cc
        by stationary stationary h s = refl

    stationary_after :
        (v w : VehicleLocation Num)
        → compare_vehicles locale_le v w ≡ false
        → is_driving w.status ≡ false
        → is_driving v.status ≡ false
    unfolding compare_vehicles
    stationary_after v w h s = by v.status w.status h s
      where
        by :
            (a b : Status)
            → by_status locale_le v w a b ≡ false
            → is_driving b ≡ false
            → is_driving a ≡ false
        by driving driving h s = cc
        by driving stationary h s = cc
        by stationary b h s = refl

    insert-IsStationary :
        (v : VehicleLocation Num) (ws : List (VehicleLocation Num))
        → IsStationary v
        → All IsStationary ws
        → All IsStationary (insert_vehicle locale_le v ws)
    unfolding insert_vehicle
    insert-IsStationary v [] h k = (h, tt)
    insert-IsStationary v (w ∷ ws) h (k, ks) = elim (Bool-cases (compare_vehicles locale_le v w)) [
      | inl e ↦ rw e (h, (k, ks))
      | inr e ↦ rw e (k, insert-IsStationary v ws h ks)
    ]

    insert-IsDrivingFirst :
        (v : VehicleLocation Num) (ws : List (VehicleLocation Num))
        → IsDrivingFirst ws
        → IsDrivingFirst (insert_vehicle locale_le v ws)
    unfolding insert_vehicle
    insert-IsDrivingFirst v [] h = (λ _. tt, tt)
    insert-IsDrivingFirst v (w ∷ ws) (h, hs) = elim (Bool-cases (compare_vehicles locale_le v w)) [
      | inl e ↦ rw e (λ s. (driving_before v w e s, h (driving_before v w e s)), (h, hs))
      | inr e ↦ rw e (
        λ s. insert-IsStationary v ws (stationary_after v w e s) (h s),
        insert-IsDrivingFirst v ws hs,
      )
    ]

    sort-IsDrivingFirst :
        (vs : List (VehicleLocation Num)) → IsDrivingFirst (sort_vehicles locale_le vs)
    unfolding sort_vehicles
    sort-IsDrivingFirst [] = tt
    sort-IsDrivingFirst (v ∷ vs) =
        insert-IsDrivingFirst v (sort_vehicles locale_le vs) (sort-IsDrivingFirst vs)

    filter-both :
        (f g : VehicleLocation Num → Bool) (vs : List (VehicleLocation Num))
        → filter f (filter g vs) ≡ filter (λ v. g v && f v) vs
    filter-both f g [] = refl
    filter-both f g (v ∷ vs) = elim (Bool-cases (g v)) [
      | inl e ↦ elim (Bool-cases (f v)) [
        | inl h ↦ rw (e, h) (ap (λ ws. v ∷ ws) (filter-both f g vs))
        | inr h ↦ rw (e, h) (filter-both f g vs)
      ]
      | inr e ↦ rw e (filter-both f g vs)
    ]

    filter-same :
        (f g : VehicleLocation Num → Bool)
        → ((v : VehicleLocation Num) → f v ≡ g v)
        → (vs : List (VehicleLocation Num)) → filter f vs ≡ filter g vs
    filter-same f g h [] = refl
    filter-same f g h (v ∷ vs) = elim (Bool-cases (g v)) [
      | inl e ↦ rw (h v, e) (ap (λ ws. v ∷ ws) (filter-same f g h vs))
      | inr e ↦ rw (h v, e) (filter-same f g h vs)
    ]

    insert-filter :
        (p : VehicleLocation Num → Bool) (v : VehicleLocation Num) (ws : List (VehicleLocation Num))
        → Perm (filter p (insert_vehicle locale_le v ws)) (filter p (v ∷ ws))
    unfolding insert_vehicle
    insert-filter p v [] = Perm.refl (filter p (v ∷ []))
    insert-filter p v (w ∷ ws) = elim (Bool-cases (compare_vehicles locale_le v w)) [
      | inl e ↦ rw e (Perm.refl (filter p (v ∷ w ∷ ws)))
      | inr e ↦ rw e (later (insert-filter p v ws))
    ]
      where
        later :
            Perm (filter p (insert_vehicle locale_le v ws)) (filter p (v ∷ ws))
            → Perm (filter p (w ∷ insert_vehicle locale_le v ws)) (filter p (v ∷ w ∷ ws))
        later h = elim (Bool-cases (p w)) [
          | inr n ↦ elim (Bool-cases (p v)) [
            | inl y ↦ rw (n, y) (rw y at h)
            | inr m ↦ rw (n, m) (rw m at h)
          ]
          | inl y ↦ elim (Bool-cases (p v)) [
            | inl z ↦ rw (y, z) (Perm.trans (Perm.cons w (rw z at h)) (Perm.swap v w (filter p ws)))
            | inr m ↦ rw (y, m) (Perm.cons w (rw m at h))
          ]
        ]

    sort-filter :
        (p : VehicleLocation Num → Bool) (vs : List (VehicleLocation Num))
        → Perm (filter p (sort_vehicles locale_le vs)) (filter p vs)
    unfolding sort_vehicles
    sort-filter p [] = Perm.refl []
    sort-filter p (v ∷ vs) =
        Perm.trans (insert-filter p v (sort_vehicles locale_le vs)) (elim (Bool-cases (p v)) [
          | inl e ↦ rw e (Perm.cons v (sort-filter p vs))
          | inr e ↦ rw e (sort-filter p vs)
        ])

    -- Whatever the order of texts is, the list has the driving vehicles before the stationary ones, and it has
    -- exactly the vehicles that the query finds and whose status the filter asks for, each as often as
    -- it was given; without a filter on the status these are all that the query finds.
    pub visible_vehicles-IsDrivingFirst :
        (lower : Text → Text) (status_filter : StatusFilter) (query : Text)
        (vehicles : List (VehicleLocation Num))
        → IsDrivingFirst (visible_vehicles lower locale_le status_filter query vehicles)
          × Perm
              (visible_vehicles lower locale_le status_filter query vehicles)
              (filter (λ v. found_in lower query v && asks_for status_filter v.status) vehicles)
    unfolding visible_vehicles matched_vehicles
    visible_vehicles-IsDrivingFirst lower status_filter query vehicles = (
      filter-IsDrivingFirst (λ v. passes status_filter v.status) _
          (sort-IsDrivingFirst (filter (found_in lower query) vehicles)),
      subst (Perm (visible_vehicles lower locale_le status_filter query vehicles))
          (filter-both (λ v. passes status_filter v.status) (found_in lower query) vehicles
            ∙ filter-same _ _
                (λ v. ap (λ b. found_in lower query v && b) (asks_lem status_filter v.status))
                vehicles)
          (sort-filter (λ v. passes status_filter v.status)
            (filter (found_in lower query) vehicles)),
    )
