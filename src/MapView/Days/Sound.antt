-- ===== src/MapView/Days/Sound.antt =====
-- Each step on the day of the map page keeps what is known of its requests and its state.
use gps_connector.Prelude.{
  ◌≡◌, ◌≢◌, refl, ap, sym, ◌∙◌, inl, inr, ℕ, suc, ◌<◌, Bool, true, false, List, [], ◌∷◌, some,
  arith, if_intro, get_elem?, zero, length, ◌==◌, Bool-cases, Option-cases, subst,
}
use gps_connector.Promise.{Settled, fulfilled, rejected}
use gps_connector.Locations.{VehicleLocation}
use gps_connector.Hooks.Requests.{
  Requests, is_aborted, abort_current, start, member, abort_current_next,
}
use gps_connector.Hooks.Requests.Asked.{
  IsKept, abort_current-IsKept, start-IsKept, start-is_aborted,
}
use gps_connector.MapView.{DayState, current, loading, error, loaded}
use gps_connector.MapView.Days.{
  Asked, Page, World, imei_key, with_current, with_request, day_effect, seen, state_of, located_for,
  on_located,
}
use gps_connector.MapView.Days.Steps.{remove, grown, settle, Fits, InFlight, HasSource}

pub member-remove :
    (id other : ℕ) (xs : List ℕ)
    → member id xs ≡ true
    → id ≢ other
    → member id (remove other xs) ≡ true
unfolding member remove
member-remove id other [] h n = cc
member-remove id other (x ∷ xs) h n = elim (Bool-cases (x == other)) [
  | inl e ↦ rw e (member-remove id other xs (ground arith) n)
  | inr e ↦ rw e (ground (arith, member-remove id other xs))
]

grown-abort_current :
    (r : Requests) (pending : List ℕ) → grown r (abort_current r) pending ≡ pending
grown-abort_current r pending = let next = abort_current_next r in ground (arith, next)

grown-start : (r : Requests) (pending : List ℕ) → grown r (start r) pending ≡ r.next ∷ pending
unfolding start
grown-start r pending = ground arith

grown_same : (r : Requests) (pending : List ℕ) → grown r r pending ≡ pending
grown_same r pending = ground arith

module _ {A : Type 0} where
  get_elem?-lt : (xs : List A) (i : ℕ) (a : A) → get_elem? xs i ≡ some a → i < length xs
  get_elem?-lt [] i a h = cc
  get_elem?-lt (x ∷ xs) zero a h = omega arith
  get_elem?-lt (x ∷ xs) (suc i) a h = omega (arith, get_elem?-lt xs i a h)

module _ {Num : Type 0} (world : World Num) where
  pub record IsSound (p : Page Num) (pending : List ℕ) : Type 0 where
    pub kept : IsKept (Fits p) p.asked p.requests
    pub source : HasSource world p pending p.day_state

  current-IsSound :
      (P : Asked Num → Type 0) (p : Page Num) (pending : List ℕ)
      → IsKept P p.asked p.requests
      → p.is_current_day ≡ true
      → IsSound (with_current p) pending
  current-IsSound P p pending k h = record {
    kept = abort_current-IsKept (Fits p) P p.asked p.requests k;
    source = h;
  }

  request-IsSound :
      (P : Asked Num → Type 0) (p : Page Num) (pending : List ℕ)
      → IsKept P p.asked p.requests
      → p.is_current_day ≡ false
      → IsSound (with_request p) (p.requests.next ∷ pending)
  request-IsSound P p pending k h = record {
    kept =
        start-IsKept (Fits p) P p.asked (record { day = p.selected_day; vehicles = p.vehicles })
          p.requests k (refl, refl, h);
    source = (
      p.requests.next,
      unfold start in omega arith,
      start-is_aborted p.requests k.0 k.1,
      unfold member in ground arith,
    );
  }

  abbrev pub IsSoundFrom : Page Num → List ℕ → Page Num → Type 0
  IsSoundFrom p pending q = IsSound q (grown p.requests q.requests pending)

  pub effect-IsSound :
      (P : Asked Num → Type 0) (p : Page Num) (pending : List ℕ)
      → IsKept P p.asked p.requests
      → IsSoundFrom p pending (day_effect p)
  unfolding day_effect
  effect-IsSound P p pending k =
      if_intro (IsSoundFrom p pending) p.is_current_day (with_current p) (with_request p)
        (λ e.
          subst (IsSound (with_current p)) (sym (grown-abort_current p.requests pending))
            (current-IsSound P p pending k e))
        (λ e.
          subst (IsSound (with_request p)) (sym (grown-start p.requests pending))
            (request-IsSound P p pending k e))

  pub same_requests :
      (p q : Page Num) (pending : List ℕ)
      → q.requests ≡ p.requests
      → IsSound q pending
      → IsSoundFrom p pending q
  same_requests p q pending e s =
      subst (IsSound q)
        (sym (ap (λ r. grown p.requests r pending) e ∙ grown_same p.requests pending)) s

  -- What the source of the state needs of the page.
  pub source_of :
      (p q : Page Num) (pending pending' : List ℕ) (day : DayState Num)
      → q.is_current_day ≡ p.is_current_day
      → q.asked ≡ p.asked
      → ((a : Asked Num) → Fits p a → Fits q a)
      → (InFlight p pending → InFlight q pending')
      → HasSource world p pending day
      → HasSource world q pending' day
  source_of p q pending pending' current e k fit fly h = e ∙ h
  source_of p q pending pending' loading e k fit fly h = fly h
  source_of p q pending pending' error e k fit fly h = e ∙ h
  source_of p q pending pending' (loaded located) e k fit fly (id, a, at, f, l) =
      (id, a, ap (λ (asked : List (Asked Num)). get_elem? asked id) k ∙ at, fit a f, l)

  pub seen-IsSound :
      (p : Page Num) (pending : List ℕ) (is_today : Bool) (vehicles : List (VehicleLocation Num))
      → is_today ≡ p.is_current_day
      → imei_key vehicles ≡ imei_key p.vehicles
      → IsSound p pending
      → IsSound (seen is_today vehicles p) pending
  seen-IsSound p pending is_today vehicles e k s = record {
    kept = (
      s.kept.0,
      s.kept.1,
      s.kept.2,
      λ id l a. let (x, at, f) = s.kept.3 id l a in (x, at, fit x f),
    );
    source =
        source_of p (seen is_today vehicles p) pending pending p.day_state e refl fit (λ h. h)
          s.source;
  }
    where
      fit : (a : Asked Num) → Fits p a → Fits (seen is_today vehicles p) a
      fit a (d, i, c) = (d, i ∙ sym k, e ∙ c)

  -- A request that no longer matters settles.
  idle_settled :
      (p : Page Num) (pending : List ℕ) (id : ℕ)
      → ((a : Asked Num) → get_elem? p.asked id ≡ some a → is_aborted p.requests id ≡ true)
      → IsSound p pending
      → IsSound p (remove id pending)
  idle_settled p pending id gone s = record {
    kept = s.kept;
    source =
        source_of p p pending (remove id pending) p.day_state refl refl (λ a f. f) still s.source;
  }
    where
      still : InFlight p pending → InFlight p (remove id pending)
      still (now, l, n, m) =
          let (a, at, _) = s.kept.3 now l n in
          (now, l, n, member-remove now id pending m (λ e. other a at e n))
        where
          other :
              (a : Asked Num)
              → get_elem? p.asked now ≡ some a
              → now ≡ id
              → is_aborted p.requests now ≡ false
              → ⊥
          other a at e n =
              let aborted = gone a (sym (ap (get_elem? p.asked) e) ∙ at) in
              let same = ap (is_aborted p.requests) e in cc

  located-IsSound :
      (p : Page Num) (pending pending' : List ℕ) (id : ℕ) (a : Asked Num)
      (located : Settled (List (VehicleLocation Num)))
      → get_elem? p.asked id ≡ some a
      → located_for world id a ≡ located
      → Fits p a
      → IsSound p pending
      → IsSound (record p { day_state = state_of located }) pending'
  located-IsSound p pending pending' id a (fulfilled vehicles) at e f s = record {
    kept = s.kept;
    source = (id, a, at, f, e);
  }
  located-IsSound p pending pending' id a (rejected failure) at e f s = record {
    kept = s.kept;
    source = f.2;
  }

  pub settle-IsSound :
      (p : Page Num) (pending : List ℕ) (id : ℕ)
      → IsSound p pending
      → IsSound (settle world id p) (remove id pending)
  unfolding on_located
  settle-IsSound p pending id s = elim (Option-cases (get_elem? p.asked id)) [
    | inl e ↦ rw (e, settle) (idle_settled p pending id (λ a h. cc) s)
    | inr (a, e) ↦
        rw (e, settle)
          (if_intro (λ (q : Page Num). IsSound q (remove id pending)) (is_aborted p.requests id) p
            (record p { day_state = state_of (located_for world id a) })
            (λ gone. idle_settled p pending id (λ _ _. gone) s)
            (λ n. arrived a e n (s.kept.3 id (below a e) n)))
  ]
    where
      below : (a : Asked Num) → get_elem? p.asked id ≡ some a → id < p.requests.next
      below a e = let l = get_elem?-lt p.asked id a e in let c = s.kept.2 in omega arith

      arrived :
          (a : Asked Num)
          → get_elem? p.asked id ≡ some a
          → is_aborted p.requests id ≡ false
          → (b : Asked Num) × (get_elem? p.asked id ≡ some b) × Fits p b
          → IsSound (record p { day_state = state_of (located_for world id a) }) (remove id pending)
      arrived a e n (b, e', f) =
          let same : b ≡ a = cc in
          located-IsSound p pending (remove id pending) id a (located_for world id a) e refl
            (subst (Fits p) same f) s
