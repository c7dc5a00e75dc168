-- ===== src/Proxy.antt =====
-- The server's own routes: frontend/lib/gps-proxy.ts, frontend/proxy.ts, frontend/app/sign-out/route.ts
-- and the routes under frontend/app/api/gps. The session, its token, the environment and the answer of
-- the API are arguments; in them, `none` is what is missing and `rejected` a call that throws.
mod Tests
pub mod Routes
pub mod Slashes
pub mod Sent
pub mod Guard
pub mod Positions
use gps_connector.Prelude.{
  ℕ, ◌≡◌, refl, Text, String, codes, Bool, true, false, ◌&&◌, ◌||◌, leb, not, List, [], ◌∷◌, ◌++◌,
  Option, none, some, if◌then◌else◌, ◌==◌, reverse, truthy, or_else,
}
use gps_connector.Promise.{Failure, Settled, fulfilled, rejected}
use gps_connector.Client.Calls.{is_ok}

pub data Method : Type 0 where
  get post patch delete : Method

-- `ProxyInit`, with the body as JSON text.
pub record ProxyInit : Type 0 where
  pub method : Option Method
  pub body : Option Text

-- The request to the API.
pub record UpstreamRequest : Type 0 where
  pub url : Text
  pub query : Option Text
  pub method : Method
  pub authorization : Text
  pub content_type : Option Text
  pub body : Option Text

pub record Upstream : Type 0 where
  pub status : ℕ
  pub body : Text
  pub content_disposition : Option Text

pub record Reply : Type 0 where
  pub status : ℕ
  pub body : Text
  pub content_type : Option Text
  pub content_disposition : Option Text

-- `ProxyError`
pub record ProxyError : Type 0 where
  pub status : ℕ
  pub message : Text

-- What runs to its end, throws a ProxyError, or throws something else.
pub data Attempt {ℓ} (A : Type ℓ) : Type ℓ where
  returned : A → Attempt A
  proxy_error : ProxyError → Attempt A
  other_error : Attempt A

abbrev bind {ℓ κ} : {A : Type ℓ} {B : Type κ} → Attempt A → (A → Attempt B) → Attempt B
bind (returned a) k = k a
bind (proxy_error e) k = proxy_error e
bind other_error k = other_error

abbrev pub fails {ℓ} : {A : Type ℓ} → ℕ → String → Attempt A
fails status message = proxy_error (record { status = status; message = codes message })

abbrev pub filled : Option Text → Option Text
filled none = none
filled (some []) = none
filled (some (c ∷ s)) = some (c ∷ s)

base_url_of : Option Text → Attempt Text
base_url_of none = fails 500 "Backend API URL is not configured"
base_url_of (some url) = returned url

-- `backendBaseUrl`, with the variable of the environment.
unfoldable pub backend_base_url : Option Text → Attempt Text
unfolding base_url_of
backend_base_url url = base_url_of (filled url)

-- What the login service knows: the user of the session, and the access token of a user.
pub record Auth : Type 0 where
  pub session : Settled (Option Text)
  pub access_token : Text → Settled (Option Text)

token_of : Settled (Option Text) → Attempt Text
token_of (rejected _) = other_error
token_of (fulfilled token) = elim (filled token) [
  | none ↦ fails 401 "No access token"
  | some t ↦ returned t
]

pub session_of : Auth → Settled (Option Text) → Attempt Text
unfolding token_of
session_of auth (rejected _) = other_error
session_of auth (fulfilled none) = fails 401 "No session"
session_of auth (fulfilled (some user)) = token_of (auth.access_token user)

-- `getKeycloakAccessToken`
unfoldable pub access_token : Auth → Attempt Text
unfolding session_of
access_token auth = session_of auth auth.session

strip_slashes : Text → Text
strip_slashes [] = []
strip_slashes (c ∷ s) = let rest = strip_slashes s in if c == b'/' then rest else c ∷ s

-- `url.replace(/\/+$/, "")`
unfoldable pub without_slashes : Text → Text
unfolding strip_slashes
without_slashes url = reverse (strip_slashes (reverse url))

abbrev has_body : Option Text → Option Text
has_body none = none
has_body (some _) = some (codes "application/json")

abbrev method_of : Option ProxyInit → Method
method_of none = get
method_of (some i) = or_else i.method get

abbrev body_of : Option ProxyInit → Option Text
body_of none = none
body_of (some i) = i.body

-- The request of `proxyToBackend` for a token and a base; `new URL` is taken to accept the text.
unfoldable pub upstream_request :
    Text → Option Text → Option ProxyInit → Text → Text → UpstreamRequest
upstream_request path query init token base = record {
  url = without_slashes base ++ path;
  query = query;
  method = method_of init;
  authorization = codes "Bearer " ++ token;
  content_type = has_body (body_of init);
  body = body_of init;
}

plain : ℕ → Text → Reply
plain status message = record {
  status = status;
  body = message;
  content_type = none;
  content_disposition = none;
}

-- The statuses with which a reply has no body.
abbrev is_null_body_status : ℕ → Bool
is_null_body_status status =
    status == 101 || status == 103 || status == 204 || status == 205 || status == 304

-- Whether the constructor of a response takes a text with this status. It throws otherwise, a RangeError or a
-- TypeError.
abbrev pub carries_text : ℕ → Bool
carries_text status = leb 200 status && leb status 599 && not (is_null_body_status status)

-- An exception of the constructor ends in the `catch` of `proxyToBackend`.
refused : ℕ → Reply
unfolding plain
refused status =
    if carries_text status
    then plain status (codes "Upstream request failed")
    else plain 500 (codes "Upstream request failed")

unfoldable pub upstream_reply : Text → Upstream → Reply
unfolding refused
upstream_reply content_type upstream =
    if not (is_ok upstream.status) then refused upstream.status else record {
      status = upstream.status;
      body = upstream.body;
      content_type = some content_type;
      content_disposition = filled upstream.content_disposition;
    }

-- What came of a call: the request that was sent to the API, if one was, and the reply.
pub record Outcome : Type 0 where
  pub sent : Option UpstreamRequest
  pub reply : Reply

fetched : Text → UpstreamRequest → Settled Upstream → Outcome
unfolding plain
fetched content_type request (rejected _) = record {
  sent = some request;
  reply = plain 500 (codes "Upstream request failed");
}
fetched content_type request (fulfilled upstream) = record {
  sent = some request;
  reply = upstream_reply content_type upstream;
}

outcome_of : Text → (UpstreamRequest → Settled Upstream) → Attempt UpstreamRequest → Outcome
unfolding fetched plain
outcome_of content_type fetch (returned request) = fetched content_type request (fetch request)
outcome_of content_type fetch (proxy_error e) = record {
  sent = none;
  reply = plain e.status e.message;
}
outcome_of content_type fetch other_error = record {
  sent = none;
  reply = plain 500 (codes "Upstream request failed");
}

-- The request, once the token and the base address are there.
unfoldable pub prepared :
    Auth → Option Text → Text → Option Text → Option ProxyInit → Attempt UpstreamRequest
prepared auth url path query init = bind (access_token auth) (λ token.
    bind (backend_base_url url) (λ base. returned (upstream_request path query init token base)))

unfoldable pub proxy_to_backend :
    Auth
    → Option Text
    → (UpstreamRequest → Settled Upstream)
    → Text
    → Option Text
    → Text
    → Option ProxyInit
    → Outcome
unfolding outcome_of
proxy_to_backend auth url fetch path query content_type init =
    outcome_of content_type fetch (prepared auth url path query init)
