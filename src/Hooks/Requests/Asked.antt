-- ===== src/Hooks/Requests/Asked.antt =====
-- What is known of the requests that are not aborted, when each is kept with what it asked for.
use gps_connector.Prelude.{
  ◌≡◌, refl, sym, ◌∙◌, inl, inr, ℕ, suc, ◌<◌, true, false, List, [], ◌∷◌, ◌++◌, some, arith,
  Option-cases, length, length-append, get_elem?, get_elem?-append,
}
use gps_connector.Hooks.Requests.{
  Requests, member, abort, is_current, is_aborted, abort_current, start, IsOrdered, no_requests,
  no_requests-IsOrdered, abort_current-IsOrdered, abort_current-aborted, abort_current_next,
  start-IsOrdered,
}

-- Only requests that were started are aborted.
abbrev pub AreStarted : Requests → Type 0
AreStarted r = (id : ℕ) → is_aborted r id ≡ true → id < r.next

pub no_requests-AreStarted : AreStarted no_requests
unfolding is_aborted member
no_requests-AreStarted id a = cc

pub abort_current-AreStarted :
    (r : Requests) → IsOrdered r → AreStarted r → AreStarted (abort_current r)
unfolding abort_current abort is_aborted member is_current
abort_current-AreStarted r (_, now) h id a = elim (Option-cases r.current) [
  | inl e ↦ ground (arith, h id)
  | inr (c, e) ↦ ground (arith, h id, now c)
]

pub start-AreStarted : (r : Requests) → IsOrdered r → AreStarted r → AreStarted (start r)
unfolding start is_aborted
start-AreStarted r o h id a =
    let before = abort_current-AreStarted r o h id a in
    let next = abort_current_next r in omega arith

-- A request that has just started is not aborted.
pub start-is_aborted :
    (r : Requests) → IsOrdered r → AreStarted r → is_aborted (start r) r.next ≡ false
unfolding start is_aborted
start-is_aborted r o h =
    let before = abort_current-AreStarted r o h r.next in
    let next = abort_current_next r in ground (arith, before)

module _ {A : Type 0} where
  -- Every request that is not aborted asked for something that fits.
  abbrev pub EachFits : (A → Type 0) → List A → Requests → Type 0
  EachFits P asked r =
      (id : ℕ)
      → id < r.next
      → is_aborted r id ≡ false
      → (a : A) × (get_elem? asked id ≡ some a) × P a

  -- The requests and what they asked for, in the order of their start.
  abbrev pub IsKept : (A → Type 0) → List A → Requests → Type 0
  IsKept P asked r = IsOrdered r × AreStarted r × (length asked ≡ r.next) × EachFits P asked r

  module _ (P : A → Type 0) where
    pub no_requests-IsKept : IsKept P [] no_requests
    no_requests-IsKept =
        (no_requests-IsOrdered, no_requests-AreStarted, refl, λ id l a. absurd (omega arith))

    -- Aborting the current request leaves none, whatever is to fit from then on.
    pub abort_current-IsKept :
        (Q : A → Type 0) (asked : List A) (r : Requests)
        → IsKept Q asked r
        → IsKept P asked (abort_current r)
    abort_current-IsKept Q asked r (ordered, started, counted, fits) = (
      abort_current-IsOrdered r ordered,
      abort_current-AreStarted r ordered started,
      counted ∙ sym (abort_current_next r),
      λ id l a. absurd (gone id l a),
    )
      where
        gone : (id : ℕ) → id < (abort_current r).next → is_aborted (abort_current r) id ≡ false → ⊥
        gone id l a =
            let aborted = abort_current-aborted r id ordered in
            let next = abort_current_next r in ground (arith, aborted)

    -- A request that starts aborts those before it, so that it alone has to fit.
    pub start-IsKept :
        (Q : A → Type 0) (asked : List A) (a : A) (r : Requests)
        → IsKept Q asked r
        → P a
        → IsKept P (asked ++ a ∷ []) (start r)
    unfolding start is_aborted
    start-IsKept Q asked a r (ordered, started, counted, fits) p = (
      start-IsOrdered r ordered,
      start-AreStarted r ordered started,
      length-append asked (a ∷ []) ∙ ground (arith, counted),
      λ id l n. (a, last id (here id l n), p),
    )
      where
        here : (id : ℕ) → id < suc r.next → is_aborted (start r) id ≡ false → id ≡ length asked
        here id l n = ground (arith, abort_current-aborted r id ordered)

        last : (id : ℕ) → id ≡ length asked → get_elem? (asked ++ a ∷ []) id ≡ some a
        last id e = rw e (get_elem?-append asked [] a)
