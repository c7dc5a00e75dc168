-- ===== src/Hooks/Requests.antt =====
-- The requests of a hook and their abort controllers: `abortRef` in frontend/hooks/use-devices.ts,
-- use-overview-devices.ts and use-tenant-certificate.ts. A request is the number of its controller.
pub mod Asked
use gps_connector.Prelude.{
  ◌≡◌, refl, ◌⊎◌, inl, inr, ℕ, suc, ◌<◌, Bool, true, false, ◌||◌, List, [], ◌∷◌, Option, none, some,
  ◌==◌, arith, Option-cases,
}

pub record Requests : Type 0 where
  pub aborted : List ℕ
  pub current : Option ℕ
  pub next : ℕ

abbrev pub no_requests : Requests
no_requests = record { aborted = []; current = none; next = 0 }

unfoldable pub member : ℕ → List ℕ → Bool
member id [] = false
member id (x ∷ xs) = x == id || member id xs

-- `controller.abort()`
unfoldable pub abort : ℕ → Requests → Requests
abort id r = record r { aborted = id ∷ r.aborted }

-- `controller.signal.aborted`
unfoldable pub is_aborted : Requests → ℕ → Bool
is_aborted r id = member id r.aborted

-- `abortRef.current?.abort()`
unfoldable pub abort_current : Requests → Requests
abort_current r = elim r.current [ none ↦ r | some id ↦ abort id r ]

-- The start of a request: the one before it is aborted and a new controller is the current one.
unfoldable pub start : Requests → Requests
start r = record (abort_current r) { current = some r.next; next = suc r.next }

-- `abortRef.current === controller`
unfoldable pub is_current : Requests → ℕ → Bool
is_current r id = elim r.current [ none ↦ false | some now ↦ now == id ]

-- Every request but the current one is aborted.
abbrev pub IsOrdered : Requests → Type 0
IsOrdered r =
    ((id : ℕ) → id < r.next → (is_aborted r id ≡ true) ⊎ (is_current r id ≡ true))
    × ((id : ℕ) → is_current r id ≡ true → id < r.next)

pub no_requests-IsOrdered : IsOrdered no_requests
unfolding is_current
no_requests-IsOrdered = (λ id h. ground arith, λ id h. cc)

pub abort-IsOrdered : (id : ℕ) (r : Requests) → IsOrdered r → IsOrdered (abort id r)
unfolding abort is_aborted is_current member
abort-IsOrdered id r (f, g) = (λ i h. ground (arith, f i h), g)

pub abort_current-IsOrdered : (r : Requests) → IsOrdered r → IsOrdered (abort_current r)
unfolding abort_current
abort_current-IsOrdered r h = elim (Option-cases r.current) [
  | inl e ↦ rw (e, abort_current) h
  | inr (id, e) ↦ rw (e, abort_current) (abort-IsOrdered id r h)
]

pub abort_current_next : (r : Requests) → (abort_current r).next ≡ r.next
unfolding abort_current abort
abort_current_next r = elim (Option-cases r.current) [
  | inl e ↦ rw (e, abort_current) refl
  | inr (id, e) ↦ rw (e, abort_current) refl
]

-- Once aborted, the current request is aborted too.
pub abort_current-aborted :
    (r : Requests) (id : ℕ) → IsOrdered r → id < r.next → is_aborted (abort_current r) id ≡ true
unfolding abort_current is_aborted is_current abort member
abort_current-aborted r id (f, g) h = elim (Option-cases r.current) [
  | inl e ↦ ground (arith, f id h)
  | inr (now, e) ↦ ground (arith, f id h)
]

pub start-IsOrdered : (r : Requests) → IsOrdered r → IsOrdered (start r)
unfolding start
start-IsOrdered r h = (
  λ id l. elim (ordered_before id l) [ inl a ↦ inl (kept id a) | inr e ↦ inr (newest id e) ],
  λ id l. unfold is_current in ground arith,
)
  where
    ordered_before :
        (id : ℕ) → id < suc r.next → (is_aborted (abort_current r) id ≡ true) ⊎ (id ≡ r.next)
    ordered_before id l = ground (arith, abort_current-aborted r id h)

    kept : (id : ℕ) → is_aborted (abort_current r) id ≡ true → is_aborted (start r) id ≡ true
    kept id a = unfold is_aborted in a

    newest : (id : ℕ) → id ≡ r.next → is_current (start r) id ≡ true
    newest id e = unfold is_current in ground arith
