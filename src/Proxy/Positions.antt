-- ===== src/Proxy/Positions.antt =====
-- A query for positions on its way from the client to the API.
use gps_connector.Prelude.{
  ◌≡◌, ◌≢◌, refl, Text, codes, List, [], ◌∷◌, ◌++◌, Option, none, some, if◌then◌else◌, text_eq,
}
use gps_connector.Client.Requests.{positions_params}
use gps_connector.Proxy.Routes.{positions_search}

-- `request.nextUrl.searchParams.get(key)`
abbrev pub param_of : List (Text × Text) → Text → Option Text
param_of [] key = none
param_of ((k, value) ∷ params) key =
    let rest = param_of params key in if text_eq k key then some value else rest

abbrev pub to_param : Option Text → List (Text × Text)
to_param none = []
to_param (some []) = []
to_param (some (c ∷ s)) = (codes "to", c ∷ s) ∷ []

-- The server passes on all that the client asks for and nothing else: the start, the end just if there is
-- one, and the device, for every IMEI and every start that are not empty.
pub positions_search-positions_params :
    (imei from : Text) (to : Option Text)
    → imei ≢ []
    → from ≢ []
    → positions_search (param_of (positions_params imei from to))
      ≡ (codes "from", from) ∷ to_param to ++ (codes "device_id", imei) ∷ []
unfolding positions_search positions_params text_eq
positions_search-positions_params [] from to h k = absurd (h refl)
positions_search-positions_params (c ∷ s) [] to h k = absurd (k refl)
positions_search-positions_params (c ∷ s) (d ∷ t) none h k = refl
positions_search-positions_params (c ∷ s) (d ∷ t) (some []) h k = refl
positions_search-positions_params (c ∷ s) (d ∷ t) (some (e ∷ u)) h k = refl
