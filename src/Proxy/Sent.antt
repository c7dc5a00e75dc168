-- ===== src/Proxy/Sent.antt =====
-- What a request to the API is made of.
use gps_connector.Prelude.{
  ◌≡◌, ◌≢◌, subst, refl, ap, ◌++◌, or_else, Text, codes, [], ◌∷◌, Option, none, some, arith,
}
use gps_connector.Promise.{Settled, fulfilled, rejected}
use gps_connector.Proxy.Slashes.{IsTrimmed, without_slashes-IsTrimmed}
use gps_connector.Proxy.{
  get, without_slashes, ProxyInit, UpstreamRequest, Auth, returned, session_of, token_of,
  backend_base_url, base_url_of, upstream_request,
}

-- Whether the user is logged in with a token that is not empty.
pub data HasToken (auth : Auth) (token : Text) : Type 0 where
  logged_in :
      (user : Text)
      → auth.session ≡ fulfilled (some user)
      → auth.access_token user ≡ fulfilled (some token)
      → token ≢ []
      → HasToken auth token

token_found :
    (auth : Auth) (user token : Text) (t : Settled (Option Text))
    → auth.session ≡ fulfilled (some user)
    → auth.access_token user ≡ t
    → token_of t ≡ returned token
    → HasToken auth token
unfolding token_of
token_found auth user token (rejected e) es et h = cc
token_found auth user token (fulfilled none) es et h = cc
token_found auth user token (fulfilled (some [])) es et h = cc
token_found auth user token (fulfilled (some (c ∷ s))) es et h =
    let same : (c ∷ s) ≡ token = ground arith in
    subst (HasToken auth) same (logged_in user es et (λ n. cc))

pub session_found :
    (auth : Auth) (token : Text) (s : Settled (Option Text))
    → auth.session ≡ s
    → session_of auth s ≡ returned token
    → HasToken auth token
unfolding session_of
session_found auth token (rejected e) es h = cc
session_found auth token (fulfilled none) es h = cc
session_found auth token (fulfilled (some user)) es h =
    token_found auth user token (auth.access_token user) es refl h

-- What the request is to have of the given method and body: GET without one, and JSON with a body.
abbrev pub IsAskedBy : Option ProxyInit → UpstreamRequest → Type 0
IsAskedBy none r = (r.method ≡ get) × (r.body ≡ none) × (r.content_type ≡ none)
IsAskedBy (some i) r =
    (r.method ≡ or_else i.method get)
    × (r.body ≡ i.body)
    × (r.content_type ≡ elim i.body [ none ↦ none | some _ ↦ some (codes "application/json") ])

-- The bearer of the request is the token, and its address the path after the base, which is one from the
-- environment less the slashes at its end; the parameters, the method and the body are the given ones.
pub record IsRequest (url : Option Text) (path : Text) (query : Option Text)
    (init : Option ProxyInit) (token : Text) (r : UpstreamRequest) : Type 0 where
  pub base : Text
  pub trimmed : Text
  pub configured : url ≡ some base
  pub filled_base : base ≢ []
  pub is_trimmed : IsTrimmed base trimmed
  pub address : r.url ≡ trimmed ++ path
  pub parameters : r.query ≡ query
  pub bearer : r.authorization ≡ codes "Bearer " ++ token
  pub asked : IsAskedBy init r

base_found :
    (url : Option Text) (base : Text)
    → backend_base_url url ≡ returned base
    → (url ≡ some base) × (base ≢ [])
unfolding backend_base_url base_url_of
base_found none base h = cc
base_found (some []) base h = cc
base_found (some (c ∷ s)) base h =
    let same : (c ∷ s) ≡ base = ground arith in
    (ap some same, subst (λ (b : Text). b ≢ []) same (λ n. cc))

upstream_request-IsAskedBy :
    (path : Text) (query : Option Text) (init : Option ProxyInit) (token base : Text)
    → IsAskedBy init (upstream_request path query init token base)
unfolding upstream_request
upstream_request-IsAskedBy path query none token base = (refl, refl, refl)
upstream_request-IsAskedBy path query (some i) token base = (refl, refl, refl)

pub upstream_request-IsRequest :
    (url : Option Text) (path : Text) (query : Option Text) (init : Option ProxyInit)
    (token base : Text)
    → backend_base_url url ≡ returned base
    → IsRequest url path query init token (upstream_request path query init token base)
unfolding upstream_request
upstream_request-IsRequest url path query init token base h =
    let (configured, full) = base_found url base h in
    record {
      base = base;
      trimmed = without_slashes base;
      configured = configured;
      filled_base = full;
      is_trimmed = without_slashes-IsTrimmed base;
      address = refl;
      parameters = refl;
      bearer = refl;
      asked = upstream_request-IsAskedBy path query init token base;
    }
