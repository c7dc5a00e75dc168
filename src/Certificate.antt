-- ===== src/Certificate.antt =====
-- The card of the device certificate: frontend/components/tenant-certificate-card.tsx,
-- certificate-status-badge.tsx, confirm-dialog.tsx and frontend/lib/certificate-download.ts. A handler has two parts: up to
-- the call of the download, and once that has settled.
mod Tests
pub mod Steps
use gps_connector.Prelude.{
  ℤ, pos, negsuc, ℕ, ◌≡◌, ◌↔◌, Text, codes, Bool, true, false, ◌&&◌, ◌||◌, not, [], ◌∷◌, ◌++◌,
  Option, none, some, leb, ltb, ◌==◌, if◌then◌else◌, take, is_some, arith,
}
use gps_connector.Client.{TenantCertificate}
use gps_connector.Promise.{Settled, fulfilled, rejected}

pub data Badge : Type 0 where
  no_certificate expired expiring_soon valid : Badge

abbrev pub expiring_soon_days : ℕ
expiring_soon_days = 90

badge_for : ℤ → Bool → Badge
badge_for (negsuc n) needs_rotation = expired
badge_for (pos n) needs_rotation =
    if n == 0
    then expired
    else if ltb n expiring_soon_days || needs_rotation
    then expiring_soon
    else valid

-- `CertificateStatusBadge`
unfoldable pub status_badge : Option TenantCertificate → Badge
unfolding badge_for
status_badge none = no_certificate
status_badge (some certificate) = badge_for certificate.days_until_expiry certificate.needs_rotation

-- Whether there are so many days left.
abbrev pub at_least : ℕ → ℤ → Bool
at_least k (pos n) = leb k n
at_least k (negsuc n) = false

badge_cases :
    (days : ℤ) (needs_rotation : Bool)
    → (badge_for days needs_rotation ≡ valid ↔ (at_least 90 days ≡ true) × (needs_rotation ≡ false))
      × (badge_for days needs_rotation ≡ expired ↔ at_least 1 days ≡ false)
unfolding badge_for
badge_cases (negsuc n) r = ground arith
badge_cases (pos n) r = ground arith

-- A certificate is shown as valid just if it has 90 days or more and needs no rotation, and as expired
-- just if it has no day left, whether it needs rotation or not.
pub status_badge_iff :
    (certificate : TenantCertificate)
    → (status_badge (some certificate) ≡ valid
        ↔ (at_least 90 certificate.days_until_expiry ≡ true) × (certificate.needs_rotation ≡ false))
      × (status_badge (some certificate) ≡ expired
          ↔ at_least 1 certificate.days_until_expiry ≡ false)
unfolding status_badge
status_badge_iff certificate = badge_cases certificate.days_until_expiry certificate.needs_rotation

pub record Card : Type 0 where
  pub open_ : Bool
  pub downloading : Bool
  pub rotate_open : Bool
  pub rotating : Bool
  pub action_error : Option Text

abbrev pub closed_card : Card
closed_card = record {
  open_ = false;
  downloading = false;
  rotate_open = false;
  rotating = false;
  action_error = none;
}

abbrev pub is_busy : Card → Bool
is_busy c = c.downloading || c.rotating

-- `handleDownload` up to the call: whether it is made.
unfoldable pub handle_download : Card → Card × Bool
handle_download c =
    if is_busy c then (c, false) else (record c { downloading = true; action_error = none }, true)

-- `handleDownload` once the call has settled, with the name of the saved file: whether the certificate is loaded again.
unfoldable pub download_settled : Settled Text → Card → Card × Bool
download_settled (fulfilled _) c = (record c { downloading = false }, true)
download_settled (rejected _) c = (
  record c { downloading = false; action_error = some (codes "Could not download certificate") },
  false,
)

unfoldable pub handle_rotate : Card → Card × Bool
handle_rotate c =
    if c.rotating then (c, false) else (record c { rotating = true; action_error = none }, true)

unfoldable pub rotate_settled : Settled Text → Card → Card × Bool
rotate_settled (fulfilled _) c = (record c { rotating = false; rotate_open = false }, true)
rotate_settled (rejected _) c = (
  record c { rotating = false; action_error = some (codes "Could not rotate certificate") },
  false,
)

-- `setOpen`, for the whole card
unfoldable pub set_open : Bool → Card → Card
set_open is_open c = record c { open_ = is_open }

-- The button that asks for a rotation, which is disabled while the card is busy.
unfoldable pub ask_rotation : Card → Card
ask_rotation c = if is_busy c then c else record c { rotate_open = true }

-- `handleOpenChange` of `ConfirmDialog`: whether the page is told.
unfoldable pub confirm_open_change : (busy next : Bool) → Option Bool
confirm_open_change busy next = if busy then none else some next

abbrev closed_by : Option Bool → Card → Card
closed_by none c = c
closed_by (some true) c = c
closed_by (some false) c = record c { rotate_open = false }

-- The confirmation is opened or closed.
unfoldable pub rotation_open_change : Bool → Card → Card
rotation_open_change next c = closed_by (confirm_open_change c.rotating next) c

-- The texts under the title.
abbrev missing_description : Bool → Text
missing_description true =
    codes "No certificate issued yet " ++ 0x2014 ∷ codes " download one to set up your devices."
missing_description false = codes "No certificate issued yet. Ask an administrator to issue one."

unfoldable pub description : Option TenantCertificate → Bool → Bool → Text
description (some certificate) loaded is_admin =
    codes "Current certificate for your organisation. Expires "
    ++ take 10 certificate.not_after
    ++ codes "."
description none loaded is_admin =
    if loaded then missing_description is_admin else codes "Loading certificate" ++ 0x2026 ∷ []

-- Which of the two buttons an administrator has, and whether they can be pressed.
pub record Buttons : Type 0 where
  pub rotate_shown : Bool
  pub download_shown : Bool
  pub disabled : Bool

unfoldable pub buttons : Option TenantCertificate → Bool → Card → Buttons
buttons certificate is_admin c = record {
  rotate_shown = is_admin && is_some certificate;
  download_shown = is_admin;
  disabled = is_busy c;
}

-- While a download or a rotation runs, a press of the download button does nothing, while a rotation
-- runs, a press of the rotation button neither; both end with the button enabled again, with an error just
-- if the call failed, and the certificate is loaded again just if it did not.
pub download_settled_lem :
    (call : Settled Text) (c : Card)
    → (is_busy c ≡ true → handle_download c ≡ (c, false))
      × (c.rotating ≡ true → handle_rotate c ≡ (c, false))
      × (let after = download_settled call (handle_download c).0 in
          is_busy c ≡ false
          → (is_busy after.0 ≡ false) × (is_some after.0.action_error ≡ not after.1))
      × (let after = rotate_settled call (handle_rotate c).0 in
          c.rotating ≡ false
          → (after.0.rotating ≡ false)
            × (is_some after.0.action_error ≡ not after.1)
            × (after.1 ≡ true → after.0.rotate_open ≡ false))
unfolding handle_download handle_rotate download_settled rotate_settled
download_settled_lem (fulfilled name) c = ground arith
download_settled_lem (rejected e) c = ground arith
