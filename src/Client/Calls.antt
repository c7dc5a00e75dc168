-- ===== src/Client/Calls.antt =====
-- How the functions of frontend/lib/gps-client.ts read the answers of the server.
use gps_connector.Prelude.{
  ℕ, Text, codes, Bool, ◌&&◌, not, List, [], ◌∷◌, ◌++◌, Option, none, some, leb, ◌==◌,
  if◌then◌else◌, filter, trim, truthy, decimal, or_else,
}
use gps_connector.Promise.{Failure, http, bad_json, Settled, fulfilled, rejected, ◌>>=◌}
use gps_connector.Client.{Device}

-- An answer of the server, with its body as text and decoded as JSON (`none`: decoding throws).
pub record Response (Body : Type 0) : Type 0 where
  pub status : ℕ
  pub text : Text
  pub json : Option Body

-- `res.ok`
abbrev pub is_ok : ℕ → Bool
is_ok status = leb 200 status && leb status 299

module _ {Body : Type 0} where
  abbrev pub decoded : Option Body → Settled Body
  decoded none = rejected bad_json
  decoded (some body) = fulfilled body

  -- The error that a function throws for an answer that is no success, under the function's label.
  unfoldable pub refusal : Text → Response Body → Failure
  refusal label res = http (label ++ codes ": " ++ decimal res.status ++ codes " " ++ res.text)

  -- `getMe`, `postDevices`, `patchDeviceMetadataBulk` and `deleteDevices` once the call has settled.
  unfoldable pub read_json : Text → Settled (Response Body) → Settled Body
  read_json label call = do
    res ← call
    if is_ok res.status then decoded res.json else rejected (refusal label res)

  abbrev some_body : Settled Body → Settled (Option Body)
  some_body call = do body ← call; fulfilled (some body)

  certificate_of : Response Body → Settled (Option Body)
  certificate_of res =
      if res.status == 404
      then fulfilled none
      else some_body (read_json (codes "tenant certificate") (fulfilled res))

  -- `getTenantCertificate`
  unfoldable pub read_certificate : Settled (Response Body) → Settled (Option Body)
  unfolding certificate_of
  read_certificate call = do res ← call; certificate_of res

-- The two shapes of the answer to `getDevices`.
pub data DevicesJson (Num : Type 0) : Type 0 where
  array : List (Device Num) → DevicesJson Num
  object : (devices : Option (List (Device Num))) → DevicesJson Num

devices_of : {Num : Type 0} → DevicesJson Num → List (Device Num)
devices_of (array devices) = devices
devices_of (object devices) = or_else devices []

unfoldable pub get_devices :
    {Num : Type 0} → Settled (Response (DevicesJson Num)) → Settled (List (Device Num))
unfolding devices_of
get_devices call = do json ← read_json (codes "devices") call; fulfilled (devices_of json)

-- `text.split("\n")`
unfoldable pub split_lines : Text → Text → List Text
split_lines line [] = line ∷ []
split_lines line (c ∷ s) =
    let closed = line ∷ split_lines [] s in
    let longer = split_lines (line ++ c ∷ []) s in if c == 0x0a then closed else longer

abbrev pub is_blank : Text → Bool
is_blank line = not (truthy (trim line))

-- `JSON.parse` of every line, which throws at the first that it cannot read.
unfoldable pub parse_lines : {Row : Type 0} → (Text → Option Row) → List Text → Settled (List Row)
parse_lines parse [] = fulfilled []
parse_lines parse (line ∷ lines) = do
  row ← decoded (parse line)
  rows ← parse_lines parse lines
  fulfilled (row ∷ rows)

-- `getPositions` once the call has settled.
unfoldable pub get_positions :
    {Row : Type 0} → (Text → Option Row) → Settled (Response Text) → Settled (List Row)
get_positions parse call = do
  res ← call
  if is_ok res.status
      then parse_lines parse (filter (λ line. not (is_blank line)) (split_lines [] res.text))
      else rejected (refusal (codes "positions") res)
