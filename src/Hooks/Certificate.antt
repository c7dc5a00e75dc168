-- ===== src/Hooks/Certificate.antt =====
-- The tenant's certificate: frontend/hooks/use-tenant-certificate.ts.
use gps_connector.Prelude.{
  ℕ, ◌<◌, ◌≡◌, Text, codes, Bool, true, false, Option, none, some, if◌then◌else◌, arith, if_intro,
}
use gps_connector.Client.{TenantCertificate}
use gps_connector.Hooks.Requests.{
  Requests, no_requests, is_aborted, is_current, abort_current, start, IsOrdered,
  no_requests-IsOrdered, abort_current-IsOrdered, start-IsOrdered,
}

pub record State : Type 0 where
  pub data_ : Option TenantCertificate
  pub error : Option Text
  pub loaded : Bool

pub record Machine : Type 0 where
  pub state : State
  pub requests : Requests

abbrev pub initial : State
initial = record { data_ = none; error = none; loaded = false }

-- `load` up to the call of `getTenantCertificate`.
unfoldable pub load : Machine → Machine
load m = record m { requests = start m.requests }

abbrev pub answered : Option TenantCertificate → State
answered certificate = record { data_ = certificate; error = none; loaded = true }

-- The callback of `then`.
unfoldable pub on_certificate : ℕ → Option TenantCertificate → Machine → Machine
on_certificate id certificate m =
    if is_aborted m.requests id then m else record m { state = answered certificate }

abbrev pub failed_state : State
failed_state = record {
  data_ = none;
  error = some (codes "Could not load tenant certificate");
  loaded = true;
}

-- The callback of `catch`.
unfoldable pub on_failure : ℕ → Machine → Machine
on_failure id m = if is_aborted m.requests id then m else record m { state = failed_state }

pub data Event : Type 0 where
  loads : Event
  succeeded : ℕ → Option TenantCertificate → Event
  failed : ℕ → Event
  unmounted : Event

unfoldable pub handle : Event → Machine → Machine
handle loads m = load m
handle (succeeded id certificate) m = on_certificate id certificate m
handle (failed id) m = on_failure id m
handle unmounted m = record m { requests = abort_current m.requests }

unfoldable pub mounted : Machine
mounted = load (record { state = initial; requests = no_requests })

pub data Reach : Machine → Type 0 where
  mount : Reach mounted
  step : (m : Machine) (e : Event) → Reach m → Reach (handle e m)

handle-IsOrdered :
    (e : Event) (m : Machine) → IsOrdered m.requests → IsOrdered (handle e m).requests
unfolding handle load on_certificate on_failure
handle-IsOrdered loads m h = start-IsOrdered m.requests h
handle-IsOrdered (succeeded id certificate) m h =
    if_intro (λ n. IsOrdered n.requests) (is_aborted m.requests id) m
      (record m { state = answered certificate }) (λ _. h) (λ _. h)
handle-IsOrdered (failed id) m h =
    if_intro (λ n. IsOrdered n.requests) (is_aborted m.requests id) m
      (record m { state = failed_state }) (λ _. h) (λ _. h)
handle-IsOrdered unmounted m h = abort_current-IsOrdered m.requests h

Reach-IsOrdered : (m : Machine) → Reach m → IsOrdered m.requests
unfolding mounted load
Reach-IsOrdered _ mount = start-IsOrdered _ no_requests-IsOrdered
Reach-IsOrdered _ (step m e r) = handle-IsOrdered e m (Reach-IsOrdered m r)

-- In every reachable state, a request for the certificate that is not the current one is without effect when it
-- settles, with an answer or without.
pub Reach-overtaken :
    (m : Machine)
    → Reach m
    → (id : ℕ) (certificate : Option TenantCertificate) → id < m.requests.next
    → is_current m.requests id ≡ false
    → (handle (succeeded id certificate) m ≡ m) × (handle (failed id) m ≡ m)
unfolding handle on_certificate on_failure
Reach-overtaken m r id certificate l c =
    let old = (Reach-IsOrdered m r).0 id l in (ground (arith, old), ground (arith, old))
