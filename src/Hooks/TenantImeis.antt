-- ===== src/Hooks/TenantImeis.antt =====
-- The tenant's registered IMEIs: frontend/hooks/use-tenant-imeis.ts. A `Set` is a list of its members.
use gps_connector.Prelude.{
  ◌≡◌, Bool, true, false, ◌||◌, List, [], ◌∷◌, ◌++◌, Text, arith, has, has-append, all,
  if◌then◌else◌, text_eq, text_eq_iff,
}

pub record State : Type 0 where
  pub imeis : List Text
  pub loaded : Bool
  pub errored : Bool

abbrev pub initial : State
initial = record { imeis = []; loaded = false; errored = false }

-- `set.add(imei)`
unfoldable pub add : List Text → Text → List Text
add imeis imei = if has imei imeis then imeis else imeis ++ imei ∷ []

unfoldable pub add_all : List Text → List Text → List Text
add_all set [] = set
add_all set (imei ∷ imeis) = add_all (add set imei) imeis

-- The callback of `then`, given the IMEIs of the devices.
unfoldable pub on_devices : Bool → List Text → State → State
on_devices aborted device_imeis s =
    if aborted
    then s
    else record { imeis = add_all [] device_imeis; loaded = true; errored = false }

-- The callback of `catch`.
unfoldable pub on_failure : Bool → State → State
on_failure aborted s = if aborted then s else record s { loaded = true; errored = true }

abbrev pub every_known : List Text → List Text → Bool
every_known set imeis = all (λ imei. has imei set) imeis

unfoldable pub mark_registered : List Text → State → State
mark_registered [] s = s
mark_registered (imei ∷ imeis) s =
    if every_known s.imeis (imei ∷ imeis)
    then s
    else record s { imeis = add_all s.imeis (imei ∷ imeis) }

has-add : (t imei : Text) (set : List Text) → has t (add set imei) ≡ (has t set || text_eq imei t)
unfolding add has
has-add t imei set = ground (arith, has-append t set (imei ∷ []), text_eq_iff imei t)

pub has-add_all :
    (t : Text) (set imeis : List Text) → has t (add_all set imeis) ≡ (has t set || has t imeis)
unfolding add_all has
has-add_all t set [] = ground arith
has-add_all t set (imei ∷ imeis) =
    ground (arith, has-add_all t (add set imei) imeis, has-add t imei set)

every_known-has :
    (t : Text) (set imeis : List Text)
    → every_known set imeis ≡ true
    → has t imeis ≡ true
    → has t set ≡ true
unfolding has
every_known-has t set [] h k = cc
every_known-has t set (imei ∷ imeis) h k =
    ground (arith, every_known-has t set imeis, text_eq_iff imei t)

-- Marking adds exactly the given IMEIs, also where it returns the old state because all are known.
pub has-mark_registered :
    (t : Text) (imeis : List Text) (s : State)
    → has t (mark_registered imeis s).imeis ≡ (has t s.imeis || has t imeis)
unfolding mark_registered
has-mark_registered t [] s = unfold has in ground arith
has-mark_registered t (imei ∷ imeis) s =
    ground (arith, has-add_all t s.imeis (imei ∷ imeis), every_known-has t s.imeis (imei ∷ imeis))
