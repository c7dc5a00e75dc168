-- ===== src/Proxy/Tests.antt =====
-- The theorems about the server's routes at a concrete login.
use gps_connector.Prelude.{◌≡◌, ◌⊎◌, refl, codes, Text, some, none}
use gps_connector.Promise.{Settled, fulfilled}
use gps_connector.Proxy.{
  Auth, UpstreamRequest, Upstream, backend_base_url, upstream_request, prepared, access_token,
  proxy_to_backend,
}
use gps_connector.Proxy.Sent.{HasToken, IsRequest}
use gps_connector.Proxy.Guard.{IsReplyTo, proxy_to_backend-HasToken, proxy_to_backend-reply}

abbrev auth : Auth
auth = record {
  session = fulfilled (some (codes "user"));
  access_token = λ user. fulfilled (some (codes "secret"));
}

abbrev answers : UpstreamRequest → Settled Upstream
answers request = fulfilled (record { status = 200; body = codes "[]"; content_disposition = none })

abbrev request : UpstreamRequest
request = upstream_request (codes "/devices") none none (codes "secret") (codes "http://api/")

is_sent :
    (proxy_to_backend auth
      (some (codes "http://api/"))
      answers
      (codes "/devices")
      none
      (codes "application/json")
      none).sent
    ≡ some request
unfolding proxy_to_backend prepared access_token backend_base_url
is_sent = refl

proxy_to_backend-HasToken_example :
    (token : Text) × HasToken auth token
    × IsRequest (some (codes "http://api/")) (codes "/devices") none none token request
proxy_to_backend-HasToken_example =
    proxy_to_backend-HasToken auth (some (codes "http://api/")) answers (codes "/devices") none
      (codes "application/json") none request is_sent

proxy_to_backend-reply_example :
    let outcome =
      proxy_to_backend auth
        (some (codes "http://api/"))
        answers
        (codes "/devices")
        none
        (codes "application/json")
        none in
    (outcome.sent ≡ none) × ((outcome.reply.status ≡ 401) ⊎ (outcome.reply.status ≡ 500))
    ⊎ ((request : UpstreamRequest) × (outcome.sent ≡ some request)
        × IsReplyTo (codes "application/json") (answers request) outcome.reply)
proxy_to_backend-reply_example =
    proxy_to_backend-reply auth (some (codes "http://api/")) answers (codes "/devices") none
      (codes "application/json") none
