-- ===== src/Proxy/Routes.antt =====
-- The routes under frontend/app/api/gps, the check of every page in frontend/proxy.ts, and the sign-out
-- of frontend/app/sign-out/route.ts.
use gps_connector.Prelude.{
  starts_with, ℕ, ◌≡◌, ◌↔◌, refl, inl, inr, Text, codes, Bool, true, false, ◌||◌, List, [], ◌∷◌,
  ◌++◌, Option, none, some, if◌then◌else◌, filter_map, text_eq, text_eq_sound, Bool-cases, arith,
}
use gps_connector.Promise.{Settled, fulfilled, rejected}
use gps_connector.Client.Calls.{is_ok}
use gps_connector.Proxy.{
  Auth, Method, post, ProxyInit, UpstreamRequest, Upstream, Outcome, filled, proxy_to_backend,
}

abbrev json_type : Text
json_type = codes "application/json"

abbrev pem_type : Text
pem_type = codes "application/x-pem-file"

abbrev sends : Method → Text → Option ProxyInit
sends method body = some (record { method = some method; body = some body })

abbrev posts : Option ProxyInit
posts = some (record { method = some post; body = none })

abbrev bad_body : Outcome
bad_body = record {
  sent = none;
  reply = record {
    status = 400;
    body = codes "Invalid JSON body";
    content_type = none;
    content_disposition = none;
  };
}

-- frontend/app/api/gps/positions/route.ts: of the parameters only these three are passed on.
abbrev pub positions_keys : List Text
positions_keys = codes "from" ∷ codes "to" ∷ codes "device_id" ∷ []

abbrev keyed : Text → Option Text → Option (Text × Text)
keyed key none = none
keyed key (some value) = some (key, value)

unfoldable pub positions_search : (Text → Option Text) → List (Text × Text)
positions_search param = filter_map (λ key. keyed key (filled (param key))) positions_keys

module _ (auth : Auth) (url : Option Text) (fetch : UpstreamRequest → Settled Upstream) where
  -- frontend/app/api/gps/devices/route.ts, with the body as JSON (`none`: it could not be read).
  unfoldable pub devices_get : Outcome
  devices_get = proxy_to_backend auth url fetch (codes "/devices") none json_type none

  unfoldable pub devices_send : Method → Option Text → Outcome
  devices_send method none = bad_body
  devices_send method (some body) =
      proxy_to_backend auth url fetch (codes "/devices") none json_type (sends method body)

  unfoldable pub me_get : Outcome
  me_get = proxy_to_backend auth url fetch (codes "/me") none json_type none

  -- `encode` writes out `URLSearchParams`.
  unfoldable pub positions_get : (List (Text × Text) → Text) → (Text → Option Text) → Outcome
  positions_get encode param =
      proxy_to_backend auth url fetch (codes "/positions") (some (encode (positions_search param)))
        (codes "application/x-ndjson") none

  unfoldable pub certificate_get : Outcome
  certificate_get = proxy_to_backend auth url fetch (codes "/tenant/cert") none json_type none

  unfoldable pub certificate_download : Outcome
  certificate_download = proxy_to_backend auth url fetch (codes "/tenant/cert") none pem_type posts

  unfoldable pub certificate_rotate : Outcome
  certificate_rotate =
      proxy_to_backend auth url fetch (codes "/tenant/cert/rotate") none pem_type posts

-- What the check of a request does.
pub data Decision : Type 0 where
  refuse : (status : ℕ) (message : Text) → Decision
  redirect : (path : Text) → Decision
  next : Decision

unfoldable pub is_token_path : Text → Bool
is_token_path path =
    text_eq path (codes "/api/auth/get-access-token")
    || text_eq path (codes "/api/auth/refresh-token")

-- `proxy`, given whether the cookie holds a session.
unfoldable pub proxy : Text → Bool → Decision
proxy path has_session =
    if is_token_path path
    then refuse 404 (codes "Not found")
    else if has_session
    then next
    else if starts_with (codes "/api") path
    then refuse 401 (codes "Authentication required")
    else redirect (codes "/sign-in")

token_path-starts :
    (path : Text) → is_token_path path ≡ true → starts_with (codes "/api") path ≡ true
unfolding is_token_path starts_with
token_path-starts path h = elim (Bool-cases (text_eq path (codes "/api/auth/get-access-token"))) [
  | inl e ↦ rw (text_eq_sound path (codes "/api/auth/get-access-token") e) refl
  | inr e ↦ rw (text_eq_sound path (codes "/api/auth/refresh-token") (ground arith)) refl
]

-- A request goes on just if it has a session and does not ask for a token; without a session a page
-- leads to the sign-in, and a call of the API, which does not ask for a token, is refused with 401.
pub proxy_iff :
    (path : Text) (has_session : Bool)
    → (proxy path has_session ≡ next ↔ (has_session ≡ true) × (is_token_path path ≡ false))
      × (is_token_path path ≡ false
          → has_session ≡ false
          → starts_with (codes "/api") path ≡ true
          → proxy path has_session ≡ refuse 401 (codes "Authentication required"))
      × (starts_with (codes "/api") path ≡ false
          → has_session ≡ false
          → proxy path has_session ≡ redirect (codes "/sign-in"))
unfolding proxy
proxy_iff path has_session =
    let starts = token_path-starts path in (ground arith, ground arith, ground (arith, starts))

-- `resolveEndSessionEndpoint`, with the document at the discovery address: the status and the endpoint in it.
unfoldable pub end_session_endpoint :
    Option Text → (Text → Settled (ℕ × Settled (Option Text))) → Option Text
end_session_endpoint discovery_url fetch = elim (filled discovery_url) [
  | none ↦ none
  | some url ↦ elim (fetch url) [
    | rejected _ ↦ none
    | fulfilled (status, json) ↦
        if is_ok status
        then elim json [ rejected _ ↦ none | fulfilled endpoint ↦ endpoint ]
        else none
  ]
]

-- `tokens.idToken ?? null` in its `try`.
abbrev pub id_token_of : Settled (Option Text) → Option Text
id_token_of (rejected _) = none
id_token_of (fulfilled token) = token

end_session_url : (Text → Text) → Text → Text → Text → Text
end_session_url encode endpoint id_token sign_in_url =
    endpoint
    ++ codes "?id_token_hint="
    ++ encode id_token
    ++ codes "&post_logout_redirect_uri="
    ++ encode sign_in_url

with_endpoint : (Text → Text) → Text → Text → Option Text → Text
unfolding end_session_url
with_endpoint encode sign_in_url id_token none = sign_in_url
with_endpoint encode sign_in_url id_token (some endpoint) =
    end_session_url encode endpoint id_token sign_in_url

-- The target of the redirection of `GET`; `encode` is `encodeURIComponent`.
unfoldable pub sign_out_target :
    (Text → Text)
    → Text
    → Settled (Option Text)
    → Option Text
    → (Text → Settled (ℕ × Settled (Option Text)))
    → Text
unfolding with_endpoint
sign_out_target encode sign_in_url tokens discovery_url fetch = elim (filled (id_token_of tokens)) [
  | none ↦ sign_in_url
  | some id_token ↦
      with_endpoint encode sign_in_url id_token (filled (end_session_endpoint discovery_url fetch))
]
