-- ===== src/Hooks/Overview/Refinement.antt =====
-- The hook of the overview against a specification without abort controllers.
use gps_connector.Prelude.{
  ℕ, suc, ◌<◌, ◌≡◌, refl, ap, subst, ◌∙◌, inl, inr, Bool, true, false, not, List, [], ◌∷◌, Option,
  none, some, arith, ◌==◌, ==_iff, if◌then◌else◌, Bool-cases,
}
use gps_connector.Register.{DeviceRecord}
use gps_connector.Hooks.Requests.{
  Requests, is_aborted, abort_current, start, IsOrdered, no_requests, no_requests-IsOrdered,
  abort_current-IsOrdered, abort_current-aborted, abort_current_next, start-IsOrdered,
}
use gps_connector.Hooks.Requests.Asked.{
  AreStarted, no_requests-AreStarted, abort_current-AreStarted, start-AreStarted, start-is_aborted,
}
use gps_connector.Hooks.Overview.{
  State, Machine, Event, loads, succeeded, failed, updates, removes, unmounted, initial, load,
  set_loading, on_devices, on_failure, failed_state, update_record, remove_record, handle, mounted,
}

-- The state of the page, how many loads there were, and the number of the one whose answer counts.
pub record View : Type 0 where
  pub state : State
  pub loads_so_far : ℕ
  pub live : Option ℕ

abbrev pub is_live : Option ℕ → ℕ → Bool
is_live none id = false
is_live (some now) id = now == id

abbrev pub loaded_state : List DeviceRecord → State
loaded_state records = record { records = records; loading = false; error = none }

-- The answer of the last load counts, as long as the component is there; the changes of the page are made to
-- what it shows.
abbrev pub specified : Event → View → View
specified loads v = record {
  state = set_loading v.state;
  loads_so_far = suc v.loads_so_far;
  live = some v.loads_so_far;
}
specified (succeeded id records) v =
    if is_live v.live id then record v { state = loaded_state records } else v
specified (failed id) v = if is_live v.live id then record v { state = failed_state v.state } else v
specified (updates imei updater) v = record v { state = update_record imei updater v.state }
specified (removes imei) v = record v { state = remove_record imei v.state }
specified unmounted v = record v { live = none }

abbrev pub first_view : View
first_view = record { state = set_loading initial; loads_so_far = 1; live = some 0 }

unfoldable pub run : List Event → Machine → Machine
run [] m = m
run (e ∷ es) m = run es (handle e m)

abbrev pub specified_run : List Event → View → View
specified_run [] v = v
specified_run (e ∷ es) v = specified_run es (specified e v)

-- Only requests that were sent settle.
abbrev pub Sent : Event → ℕ → Type 0
Sent (succeeded id _) next = id < next
Sent (failed id) next = id < next
Sent _ next = Unit

abbrev pub AreSent : List Event → Machine → Type 0
AreSent [] m = Unit
AreSent (e ∷ es) m = Sent e m.requests.next × AreSent es (handle e m)

record Shows (m : Machine) (v : View) : Type 0 where
  same : m.state ≡ v.state
  counted : m.requests.next ≡ v.loads_so_far
  ordered : IsOrdered m.requests
  started : AreStarted m.requests
  -- A request counts just if it is not aborted.
  live : (id : ℕ) → id < m.requests.next → is_aborted m.requests id ≡ not (is_live v.live id)

with_state :
    (f : State → State) (m : Machine) (v : View)
    → Shows m v
    → Shows (record m { state = f m.state }) (record v { state = f v.state })
with_state f m v s = record {
  same = ap f s.same;
  counted = s.counted;
  ordered = s.ordered;
  started = s.started;
  live = s.live;
}

-- An answer changes both or none.
answer-Shows :
    (f : State → State) (id : ℕ) (m : Machine) (v : View)
    → id < m.requests.next
    → Shows m v
    → Shows
        (if is_aborted m.requests id then m else record m { state = f m.state })
        (if is_live v.live id then record v { state = f v.state } else v)
answer-Shows f id m v l s = elim (Bool-cases (is_live v.live id)) [
  | inl e ↦
      let gone : is_aborted m.requests id ≡ false = s.live id l ∙ ap not e in
      rw (gone, e) (with_state f m v s)
  | inr e ↦ let gone : is_aborted m.requests id ≡ true = s.live id l ∙ ap not e in rw (gone, e) s
]

-- After a load only its request is not aborted.
loaded_live :
    (r : Requests) (id : ℕ)
    → IsOrdered r
    → AreStarted r
    → id < suc r.next
    → is_aborted (start r) id ≡ not (is_live (some r.next) id)
unfolding start is_aborted
loaded_live r id o started l = elim (Bool-cases (r.next == id)) [
  | inl e ↦
      let here = (==_iff r.next id).0 e in
      rw e (subst (λ n. is_aborted (start r) n ≡ false) here (start-is_aborted r o started))
  | inr e ↦ rw e (older (ground arith))
]
  where
    older : id < r.next → is_aborted (start r) id ≡ true
    older l = abort_current-aborted r id o l

load-Shows : (m : Machine) (v : View) → Shows m v → Shows (load m) (specified loads v)
unfolding load start
load-Shows m v s = record {
  same = ap set_loading s.same;
  counted = ap suc s.counted;
  ordered = start-IsOrdered m.requests s.ordered;
  started = start-AreStarted m.requests s.ordered s.started;
  live = λ id l.
      subst (λ n. is_aborted (start m.requests) id ≡ not (is_live (some n) id)) s.counted
        (loaded_live m.requests id s.ordered s.started l);
}

end-Shows :
    (m : Machine) (v : View)
    → Shows m v
    → Shows (record m { requests = abort_current m.requests }) (specified unmounted v)
end-Shows m v s = record {
  same = s.same;
  counted = abort_current_next m.requests ∙ s.counted;
  ordered = abort_current-IsOrdered m.requests s.ordered;
  started = abort_current-AreStarted m.requests s.ordered s.started;
  live = λ id l. abort_current-aborted m.requests id s.ordered (before id l);
}
  where
    before : (id : ℕ) → id < (abort_current m.requests).next → id < m.requests.next
    before id l = let next = abort_current_next m.requests in omega arith

handle-Shows :
    (e : Event) (m : Machine) (v : View)
    → Sent e m.requests.next
    → Shows m v
    → Shows (handle e m) (specified e v)
unfolding handle on_devices on_failure
handle-Shows loads m v l s = load-Shows m v s
handle-Shows (succeeded id records) m v l s = answer-Shows (λ _. loaded_state records) id m v l s
handle-Shows (failed id) m v l s = answer-Shows failed_state id m v l s
handle-Shows (updates imei updater) m v l s = with_state (update_record imei updater) m v s
handle-Shows (removes imei) m v l s = with_state (remove_record imei) m v s
handle-Shows unmounted m v l s = end-Shows m v s

run-Shows :
    (es : List Event) (m : Machine) (v : View)
    → AreSent es m
    → Shows m v
    → Shows (run es m) (specified_run es v)
unfolding run
run-Shows [] m v a s = s
run-Shows (e ∷ es) m v (l, a) s =
    run-Shows es (handle e m) (specified e v) a (handle-Shows e m v l s)

mounted-Shows : Shows mounted first_view
unfolding mounted
mounted-Shows =
    load-Shows (record { state = initial; requests = no_requests })
      (record { state = initial; loads_so_far = 0; live = none })
      (record {
        same = refl;
        counted = refl;
        ordered = no_requests-IsOrdered;
        started = no_requests-AreStarted;
        live = λ id l. absurd (omega arith);
      })

-- Whatever happens after the start, the page has what the specification has, which knows no abort
-- controllers: the answer to the last load, with the changes that the page has made since, and neither
-- an answer to an earlier load nor one after the end, provided that only requests that were sent settle.
pub run-specified :
    (es : List Event)
    → AreSent es mounted
    → (run es mounted).state ≡ (specified_run es first_view).state
run-specified es a = (run-Shows es mounted first_view a mounted-Shows).same
