-- ===== src/Client/Requests.antt =====
-- The requests that frontend/lib/gps-client.ts sends, and the bundle of a certificate, which
-- frontend/lib/certificate-download.ts saves as a file. `encode` writes out `URLSearchParams`, and `json`
-- is `JSON.stringify` of what a request carries.
use gps_connector.Prelude.{ℕ, Text, codes, List, [], ◌∷◌, ◌++◌, Option, none, some, if◌then◌else◌}
use gps_connector.Promise.{Settled, fulfilled, rejected, ◌>>=◌}
use gps_connector.Client.{RegisterInput}
use gps_connector.Client.Calls.{Response, is_ok, refusal}
use gps_connector.Client.Filename.{filename_from_disposition}
use gps_connector.Proxy.{Method, get, post, patch, delete}
use gps_connector.Overview.Import.{PatchInput}

pub record ClientRequest : Type 0 where
  pub method : Method
  pub path : Text
  pub body : Option Text

abbrev gets : Text → ClientRequest
gets path = record { method = get; path = path; body = none }

-- `{ device_id: imei, from }`, and `to` where it is given and not empty
unfoldable pub positions_params : Text → Text → Option Text → List (Text × Text)
positions_params imei from none = (codes "device_id", imei) ∷ (codes "from", from) ∷ []
positions_params imei from (some []) = (codes "device_id", imei) ∷ (codes "from", from) ∷ []
positions_params imei from (some (c ∷ s)) =
    (codes "device_id", imei) ∷ (codes "from", from) ∷ (codes "to", c ∷ s) ∷ []

unfoldable pub get_devices_request : ClientRequest
get_devices_request = gets (codes "/api/gps/devices")

unfoldable pub get_me_request : ClientRequest
get_me_request = gets (codes "/api/gps/me")

unfoldable pub get_tenant_certificate_request : ClientRequest
get_tenant_certificate_request = gets (codes "/api/gps/tenant/cert")

unfoldable pub get_positions_request :
    (List (Text × Text) → Text) → Text → Text → Option Text → ClientRequest
get_positions_request encode imei from to =
    gets (codes "/api/gps/positions?" ++ encode (positions_params imei from to))

unfoldable pub post_devices_request :
    (List RegisterInput → Text) → List RegisterInput → ClientRequest
post_devices_request json devices = record {
  method = post;
  path = codes "/api/gps/devices";
  body = some (json devices);
}

unfoldable pub patch_metadata_request :
    {Num : Type 0} → (List (PatchInput Num) → Text) → List (PatchInput Num) → ClientRequest
patch_metadata_request json updates = record {
  method = patch;
  path = codes "/api/gps/devices";
  body = some (json updates);
}

unfoldable pub delete_devices_request : (List Text → Text) → List Text → ClientRequest
delete_devices_request json imeis = record {
  method = delete;
  path = codes "/api/gps/devices";
  body = some (json imeis);
}

-- An answer with a file: its content and the header `Content-Disposition`.
pub record FileResponse (Blob : Type 0) : Type 0 where
  pub status : ℕ
  pub text : Text
  pub blob : Blob
  pub disposition : Option Text

pub record CertificateBundle (Blob : Type 0) : Type 0 where
  pub blob : Blob
  pub filename : Text

module _ {Blob : Type 0} where
  bundle_of : FileResponse Blob → CertificateBundle Blob
  bundle_of res = record { blob = res.blob; filename = filename_from_disposition res.disposition }

  abbrev as_response : FileResponse Blob → Response Blob
  as_response res = record { status = res.status; text = res.text; json = none }

  -- `postCertificateBundle` once the call has settled.
  unfoldable pub read_bundle : Settled (FileResponse Blob) → Settled (CertificateBundle Blob)
  unfolding bundle_of
  read_bundle call = do
    res ← call
    if is_ok res.status
        then fulfilled (bundle_of res)
        else rejected (refusal (codes "tenant certificate") (as_response res))

  -- `downloadTenantCertificate` and `downloadRotatedTenantCertificate`: the name of the file that is saved.
  unfoldable pub saved_name : Settled (FileResponse Blob) → Settled Text
  saved_name call = do bundle ← read_bundle call; fulfilled bundle.filename
