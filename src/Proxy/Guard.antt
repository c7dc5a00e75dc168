-- ===== src/Proxy/Guard.antt =====
-- What the proxy sends and what it lets through.
use gps_connector.Prelude.{
  ◌≡◌, subst, refl, sym, ◌⊎◌, inl, inr, Text, codes, true, false, [], ◌∷◌, Option, none, some,
  arith, Bool-cases,
}
use gps_connector.Promise.{Settled, fulfilled, rejected}
use gps_connector.Client.Calls.{is_ok}
use gps_connector.Proxy.Sent.{HasToken, session_found, IsRequest, upstream_request-IsRequest}
use gps_connector.Proxy.{
  ProxyInit, UpstreamRequest, Upstream, Reply, Auth, Attempt, returned, proxy_error, other_error,
  bind, access_token, session_of, token_of, backend_base_url, base_url_of, upstream_request,
  upstream_reply, refused, carries_text, Outcome, outcome_of, fetched, plain, prepared,
  proxy_to_backend,
}

bound :
    {R : Type 0} (a b : Attempt Text) (f : Text → Text → R) (r : R)
    → bind a (λ token. bind b (λ base. returned (f token base))) ≡ returned r
    → (token : Text) × (base : Text) × (a ≡ returned token)
      × (b ≡ returned base)
      × (r ≡ f token base)
bound (proxy_error e) b f r h = cc
bound other_error b f r h = cc
bound (returned token) (proxy_error e) f r h = cc
bound (returned token) other_error f r h = cc
bound (returned token) (returned base) f r h = (token, base, refl, refl, ground arith)

fetched-sent :
    (content_type : Text) (request : UpstreamRequest) (s : Settled Upstream)
    → (fetched content_type request s).sent ≡ some request
unfolding fetched
fetched-sent content_type request (rejected e) = refl
fetched-sent content_type request (fulfilled u) = refl

sent_prepared :
    (content_type : Text) (fetch : UpstreamRequest → Settled Upstream) (p : Attempt UpstreamRequest)
    (request : UpstreamRequest)
    → (outcome_of content_type fetch p).sent ≡ some request
    → p ≡ returned request
unfolding outcome_of
sent_prepared content_type fetch (proxy_error e) request h = cc
sent_prepared content_type fetch other_error request h = cc
sent_prepared content_type fetch (returned r) request h =
    let same = fetched-sent content_type r (fetch r) in ground (arith, same)

-- A request that the proxy sends to the API has as its bearer the token, which is not empty, of the session's
-- user. Its address is the one from the environment, without the slashes at its end, with the given
-- path after it; its parameters, method and body are the given ones, GET without a method, and a
-- body goes with the type of JSON.
pub proxy_to_backend-HasToken :
    (auth : Auth) (url : Option Text) (fetch : UpstreamRequest → Settled Upstream) (path : Text)
    (query : Option Text) (content_type : Text) (init : Option ProxyInit)
    (request : UpstreamRequest)
    → (proxy_to_backend auth url fetch path query content_type init).sent ≡ some request
    → (token : Text) × HasToken auth token × IsRequest url path query init token request
unfolding proxy_to_backend prepared access_token
proxy_to_backend-HasToken auth url fetch path query content_type init request h =
    let (token, base, a, b, r) =
      bound (access_token auth) (backend_base_url url) (upstream_request path query init) request
        (sent_prepared content_type fetch (prepared auth url path query init) request h) in
    (
      token,
      session_found auth token auth.session refl a,
      subst (IsRequest url path query init token) (sym r)
          (upstream_request-IsRequest url path query init token base b),
    )

abbrev pub failed_text : Text
failed_text = codes "Upstream request failed"

-- The reply that belongs to an answer of the API, or to none.
abbrev pub IsReplyTo : Text → Settled Upstream → Reply → Type 0
IsReplyTo content_type (rejected _) reply = (reply.status ≡ 500) × (reply.body ≡ failed_text)
IsReplyTo content_type (fulfilled upstream) reply =
    (is_ok upstream.status ≡ true)
      × (reply.status ≡ upstream.status)
      × (reply.body ≡ upstream.body)
      × (reply.content_type ≡ some content_type)
    ⊎ (is_ok upstream.status ≡ false)
      × (reply.body ≡ failed_text)
      × ((carries_text upstream.status ≡ true) × (reply.status ≡ upstream.status)
          ⊎ (carries_text upstream.status ≡ false) × (reply.status ≡ 500))

-- An error of the proxy's own, which is 401 or 500.
abbrev IsExpected {ℓ} : {A : Type ℓ} → Attempt A → Type 0
IsExpected (returned _) = Unit
IsExpected (proxy_error e) = (e.status ≡ 401) ⊎ (e.status ≡ 500)
IsExpected other_error = Unit

token-IsExpected : (t : Settled (Option Text)) → IsExpected (token_of t)
unfolding token_of
token-IsExpected (rejected e) = tt
token-IsExpected (fulfilled none) = inl refl
token-IsExpected (fulfilled (some [])) = inl refl
token-IsExpected (fulfilled (some (c ∷ s))) = tt

session-IsExpected : (auth : Auth) (s : Settled (Option Text)) → IsExpected (session_of auth s)
unfolding session_of
session-IsExpected auth (rejected e) = tt
session-IsExpected auth (fulfilled none) = inl refl
session-IsExpected auth (fulfilled (some user)) = token-IsExpected (auth.access_token user)

base-IsExpected : (url : Option Text) → IsExpected (backend_base_url url)
unfolding backend_base_url base_url_of
base-IsExpected none = inr refl
base-IsExpected (some []) = inr refl
base-IsExpected (some (c ∷ s)) = tt

bind-IsExpected :
    {R : Type 0} (a b : Attempt Text) (f : Text → Text → R)
    → IsExpected a
    → IsExpected b
    → IsExpected (bind a (λ token. bind b (λ base. returned (f token base))))
bind-IsExpected (proxy_error e) b f h k = h
bind-IsExpected other_error b f h k = tt
bind-IsExpected (returned token) (proxy_error e) f h k = k
bind-IsExpected (returned token) other_error f h k = tt
bind-IsExpected (returned token) (returned base) f h k = tt

fetched-IsReplyTo :
    (content_type : Text) (request : UpstreamRequest) (s : Settled Upstream)
    → IsReplyTo content_type s (fetched content_type request s).reply
unfolding fetched upstream_reply refused plain
fetched-IsReplyTo content_type request (rejected e) = (refl, refl)
fetched-IsReplyTo content_type request (fulfilled u) = elim (Bool-cases (is_ok u.status)) [
  | inl e ↦ rw e (inl (refl, refl, refl, refl))
  | inr e ↦ elim (Bool-cases (carries_text u.status)) [
    | inl c ↦ rw (e, c) (inr (refl, refl, inl (refl, refl)))
    | inr c ↦ rw (e, c) (inr (refl, refl, inr (refl, refl)))
  ]
]

abbrev IsOutcome : Text → (UpstreamRequest → Settled Upstream) → Outcome → Type 0
IsOutcome content_type fetch outcome =
    (outcome.sent ≡ none) × ((outcome.reply.status ≡ 401) ⊎ (outcome.reply.status ≡ 500))
    ⊎ ((request : UpstreamRequest) × (outcome.sent ≡ some request)
        × IsReplyTo content_type (fetch request) outcome.reply)

outcome_of-IsOutcome :
    (content_type : Text) (fetch : UpstreamRequest → Settled Upstream) (p : Attempt UpstreamRequest)
    → IsExpected p
    → IsOutcome content_type fetch (outcome_of content_type fetch p)
unfolding outcome_of plain
outcome_of-IsOutcome content_type fetch (returned r) h =
    inr (r, fetched-sent content_type r (fetch r), fetched-IsReplyTo content_type r (fetch r))
outcome_of-IsOutcome content_type fetch (proxy_error e) h = inl (refl, h)
outcome_of-IsOutcome content_type fetch other_error h = inl (refl, inr refl)

-- The reply to the browser once a request was sent: the answer's status and body, under the given type, if the
-- API was successful; a fixed text, and no part of its body, if it was not, with its status where a reply
-- with a text may have that and 500 otherwise; and 500 with that text if there was no answer.
-- Without a request the status is 401 or 500.
pub proxy_to_backend-reply :
    (auth : Auth) (url : Option Text) (fetch : UpstreamRequest → Settled Upstream) (path : Text)
    (query : Option Text) (content_type : Text) (init : Option ProxyInit)
    → let outcome = proxy_to_backend auth url fetch path query content_type init in
      (outcome.sent ≡ none) × ((outcome.reply.status ≡ 401) ⊎ (outcome.reply.status ≡ 500))
      ⊎ ((request : UpstreamRequest) × (outcome.sent ≡ some request)
          × IsReplyTo content_type (fetch request) outcome.reply)
unfolding proxy_to_backend prepared access_token
proxy_to_backend-reply auth url fetch path query content_type init =
    outcome_of-IsOutcome content_type fetch (prepared auth url path query init) (
      bind-IsExpected (access_token auth) (backend_base_url url) (upstream_request path query init)
        (session-IsExpected auth auth.session) (base-IsExpected url))
