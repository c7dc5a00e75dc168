-- ===== src/Panel/Addresses.antt =====
-- The address of the vehicle that the panel shows: the effect of `VehicleDetails` in
-- frontend/components/map-panel.tsx, which calls `fetchAddress`. `text_of` is `String` on numbers.
use gps_connector.Prelude.{
  ◌≡◌, refl, sym, ◌∙◌, ℕ, ◌<◌, Text, codes, List, [], ◌∷◌, ◌++◌, Option, none, some, if◌then◌else◌,
  if_intro, text_eq, text_eq_sound, get_elem?, truthy,
}
use gps_connector.Promise.{Settled, fulfilled, rejected}
use gps_connector.Client.Calls.{Response}
use gps_connector.Hooks.Requests.{Requests, no_requests, is_aborted, abort_current, start}
use gps_connector.Hooks.Requests.Asked.{
  IsKept, no_requests-IsKept, abort_current-IsKept, start-IsKept,
}
use gps_connector.Panel.Address.{Properties, fetch_address}

-- The coordinates and the address that are shown, and what each request asked for.
pub record Lookup (Num : Type 0) : Type 0 where
  pub coordinates : Num × Num
  pub address : Option Text
  pub requests : Requests
  pub asked : List (Num × Num)

abbrev pub Call : Type 0
Call = Settled (Response (Option Properties))

module _ {Num : Type 0} (text_of : Num → Text) (token : Text) where
  -- `coordKey`
  unfoldable pub coord_key : Num × Num → Text
  coord_key (longitude, latitude) = text_of longitude ++ codes "," ++ text_of latitude

  abbrev pub without_request : Lookup Num → Lookup Num
  without_request m = record m { address = none; requests = abort_current m.requests }

  abbrev pub with_request : Lookup Num → Lookup Num
  with_request m = record m {
    address = none;
    requests = start m.requests;
    asked = m.asked ++ m.coordinates ∷ [];
  }

  -- The effect, after the clean-up of the one before it; without a token nothing is asked for.
  unfoldable pub address_effect : Lookup Num → Lookup Num
  address_effect m = if truthy token then with_request m else without_request m

  abbrev pub fresh : Num × Num → Lookup Num
  fresh coordinates = record {
    coordinates = coordinates;
    address = none;
    requests = no_requests;
    asked = [];
  }

  abbrev pub at : Num × Num → Lookup Num → Lookup Num
  at coordinates m = record m { coordinates = coordinates }

  -- The details are rendered with the coordinates of a vehicle.
  unfoldable pub show_vehicle : Num × Num → Lookup Num → Lookup Num
  show_vehicle coordinates m =
      if text_eq (coord_key coordinates) (coord_key m.coordinates)
      then at coordinates m
      else address_effect (at coordinates m)

  abbrev pub with_address : ℕ → Settled (Option Text) → Lookup Num → Lookup Num
  with_address id (fulfilled found) m =
      if is_aborted m.requests id then m else record m { address = found }
  with_address id (rejected _) m = m

  -- The rest of the effect, once the call of `fetchAddress` has settled; a failure is ignored.
  unfoldable pub on_address : ℕ → Call → Lookup Num → Lookup Num
  on_address id call m = with_address id (fetch_address call) m

  -- What the call of `fetchAddress` in the request of this number settles with.
  module _ (calls : ℕ → Call) where
    -- The details appear for a vehicle, change to another one, and a request settles.
    pub data Reach : Lookup Num → Type 0 where
      mount : (coordinates : Num × Num) → Reach (address_effect (fresh coordinates))
      shows :
          (coordinates : Num × Num) (m : Lookup Num) → Reach m → Reach (show_vehicle coordinates m)
      settles :
          (id : ℕ) (m : Lookup Num)
          → Reach m
          → id < m.requests.next
          → Reach (on_address id (calls id) m)

    abbrev pub IsFor : Lookup Num → Num × Num → Type 0
    IsFor m coordinates = coord_key coordinates ≡ coord_key m.coordinates

    abbrev pub HasAnswer : Lookup Num → Option Text → Type 0
    HasAnswer m none = Unit
    HasAnswer m (some address) =
        (coordinates : Num × Num) × (id : ℕ) × (get_elem? m.asked id ≡ some coordinates)
        × IsFor m coordinates
        × (fetch_address (calls id) ≡ fulfilled (some address))

    record IsSound (m : Lookup Num) : Type 0 where
      kept : IsKept (IsFor m) m.asked m.requests
      answer : HasAnswer m m.address

    effect-IsSound :
        (P : Num × Num → Type 0) (m : Lookup Num)
        → IsKept P m.asked m.requests
        → IsSound (address_effect m)
    unfolding address_effect
    effect-IsSound P m k =
        if_intro IsSound (truthy token) (with_request m) (without_request m)
          (λ _. record {
            kept = start-IsKept (IsFor m) P m.asked m.coordinates m.requests k refl;
            answer = tt;
          })
          (λ _. record {
            kept = abort_current-IsKept (IsFor m) P m.asked m.requests k;
            answer = tt;
          })

    moved-HasAnswer :
        (m : Lookup Num) (coordinates : Num × Num) (address : Option Text)
        → coord_key coordinates ≡ coord_key m.coordinates
        → HasAnswer m address
        → HasAnswer (at coordinates m) address
    moved-HasAnswer m coordinates none e h = tt
    moved-HasAnswer m coordinates (some address) e (c, id, asked, same, f) =
        (c, id, asked, same ∙ sym e, f)

    show-IsSound :
        (coordinates : Num × Num) (m : Lookup Num)
        → IsSound m
        → IsSound (show_vehicle coordinates m)
    unfolding show_vehicle
    show-IsSound coordinates m s =
        if_intro IsSound (text_eq (coord_key coordinates) (coord_key m.coordinates))
          (at coordinates m) (address_effect (at coordinates m))
          (λ e. same (text_eq_sound (coord_key coordinates) (coord_key m.coordinates) e))
          (λ _. effect-IsSound (IsFor m) (at coordinates m) s.kept)
      where
        same : coord_key coordinates ≡ coord_key m.coordinates → IsSound (at coordinates m)
        same e = record {
          kept = (
            s.kept.0,
            s.kept.1,
            s.kept.2,
            λ id l a. let (c, asked, f) = s.kept.3 id l a in (c, asked, f ∙ sym e),
          );
          answer = moved-HasAnswer m coordinates m.address e s.answer;
        }

    found-HasAnswer :
        (id : ℕ) (m : Lookup Num) (found : Option Text)
        → fetch_address (calls id) ≡ fulfilled found
        → (c : Num × Num) × (get_elem? m.asked id ≡ some c) × IsFor m c
        → HasAnswer (record m { address = found }) found
    found-HasAnswer id m none f h = tt
    found-HasAnswer id m (some address) f (c, asked, same) = (c, id, asked, same, f)

    address-IsSound :
        (id : ℕ) (m : Lookup Num) (o : Settled (Option Text))
        → fetch_address (calls id) ≡ o
        → id < m.requests.next
        → IsSound m
        → IsSound (with_address id o m)
    address-IsSound id m (rejected e) f l s = s
    address-IsSound id m (fulfilled found) f l s =
        if_intro IsSound (is_aborted m.requests id) m (record m { address = found }) (λ _. s)
          (λ n. record { kept = s.kept; answer = found-HasAnswer id m found f (s.kept.3 id l n) })

    Reach-IsSound : (m : Lookup Num) → Reach m → IsSound m
    unfolding on_address
    Reach-IsSound _ (mount coordinates) =
        effect-IsSound (IsFor (fresh coordinates)) (fresh coordinates)
          (no_requests-IsKept (IsFor (fresh coordinates)))
    Reach-IsSound _ (shows coordinates m r) = show-IsSound coordinates m (Reach-IsSound m r)
    Reach-IsSound _ (settles id m r l) =
        address-IsSound id m (fetch_address (calls id)) refl l (Reach-IsSound m r)

    -- Whenever an address is shown, in whatever order vehicles are shown and requests settle, it is what the
    -- panel's own request of some number has found, and that request asked for coordinates that are
    -- written as those of the vehicle shown then.
    pub Reach-HasAnswer : (m : Lookup Num) → Reach m → HasAnswer m m.address
    Reach-HasAnswer m r = (Reach-IsSound m r).answer
