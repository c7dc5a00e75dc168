-- ===== src/Hooks/Privileges.antt =====
-- The privileges of the user: frontend/hooks/use-privileges.ts.
use gps_connector.Prelude.{Text, codes, Bool, true, false, List, [], if◌then◌else◌, or_else, has}
use gps_connector.Client.{Me}

pub record State : Type 0 where
  pub urns : List Text
  pub is_admin : Bool
  pub loaded : Bool

abbrev pub initial : State
initial = record { urns = []; is_admin = false; loaded = false }

-- `ADMIN_PRIVILEGE` of frontend/lib/gps-client.ts
abbrev pub admin_privilege : Text
admin_privilege = codes "urn:dk:kombit:gps-connector:admin"

abbrev pub privileges_of : List Text → State
privileges_of urns = record { urns = urns; is_admin = has admin_privilege urns; loaded = true }

-- The callback of `then`.
unfoldable pub on_me : Bool → Me → State → State
on_me aborted me s = if aborted then s else privileges_of (or_else me.privilege_urns [])

-- The callback of `catch`.
unfoldable pub on_failure : Bool → State → State
on_failure aborted s = if aborted then s else record { urns = []; is_admin = false; loaded = true }
