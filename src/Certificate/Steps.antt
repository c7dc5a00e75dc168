-- ===== src/Certificate/Steps.antt =====
-- What happens to the card of the certificate, with the calls that are in flight.
use gps_connector.Prelude.{◌≡◌, refl, ℕ, ◌-◌, ◌+◌, ◌<◌, ◌≤◌, Text, Bool, true, false, arith}
use gps_connector.Promise.{Settled, fulfilled, rejected}
use gps_connector.Certificate.{
  Card, closed_card, is_busy, handle_download, download_settled, handle_rotate, rotate_settled,
  set_open, ask_rotation, rotation_open_change, confirm_open_change,
}

-- The card with the numbers of downloads and of rotations in flight.
pub record Running : Type 0 where
  pub card : Card
  pub downloads : ℕ
  pub rotations : ℕ

abbrev pub at_rest : Running
at_rest = record { card = closed_card; downloads = 0; rotations = 0 }

abbrev one_if : Bool → ℕ
one_if true = 1
one_if false = 0

pub data Event : Type 0 where
  opens : Bool → Event
  presses_download : Event
  asks_rotation : Event
  confirms_rotation : Event
  changes_confirmation : Bool → Event
  ends_download : Settled Text → Event
  ends_rotation : Settled Text → Event

unfoldable pub handle : Event → Running → Running
handle (opens is_open) r = record r { card = set_open is_open r.card }
handle presses_download r =
    let (after, sent) = handle_download r.card in
    record r { card = after; downloads = r.downloads + one_if sent }
handle asks_rotation r = record r { card = ask_rotation r.card }
handle confirms_rotation r =
    let (after, sent) = handle_rotate r.card in
    record r { card = after; rotations = r.rotations + one_if sent }
handle (changes_confirmation next) r = record r { card = rotation_open_change next r.card }
handle (ends_download call) r = record r {
  card = (download_settled call r.card).0;
  downloads = r.downloads - 1;
}
handle (ends_rotation call) r = record r {
  card = (rotate_settled call r.card).0;
  rotations = r.rotations - 1;
}

-- A call ends only if it is in flight, and a rotation is confirmed only in the open confirmation.
abbrev pub Allowed : Event → Running → Type 0
Allowed (ends_download _) r = 0 < r.downloads
Allowed (ends_rotation _) r = 0 < r.rotations
Allowed confirms_rotation r = r.card.rotate_open ≡ true
Allowed _ r = Unit

pub data Reach : Running → Type 0 where
  mount : Reach at_rest
  step : (e : Event) (r : Running) → Reach r → Allowed e r → Reach (handle e r)

pub record IsTracked (r : Running) : Type 0 where
  pub downloads : r.downloads ≡ one_if r.card.downloading
  pub rotations : r.rotations ≡ one_if r.card.rotating
  -- While a rotation runs, its confirmation stays open.
  pub asked : r.card.rotating ≡ true → r.card.rotate_open ≡ true

handle-IsTracked : (e : Event) (r : Running) → Allowed e r → IsTracked r → IsTracked (handle e r)
unfolding handle set_open handle_download ask_rotation handle_rotate rotation_open_change
    confirm_open_change download_settled rotate_settled
handle-IsTracked (opens is_open) r a t = ground arith
handle-IsTracked presses_download r a t = ground arith
handle-IsTracked asks_rotation r a t = ground arith
handle-IsTracked confirms_rotation r a t = ground arith
handle-IsTracked (changes_confirmation true) r a t = ground arith
handle-IsTracked (changes_confirmation false) r a t = ground arith
handle-IsTracked (ends_download (fulfilled name)) r a t = ground arith
handle-IsTracked (ends_download (rejected e)) r a t = ground arith
handle-IsTracked (ends_rotation (fulfilled name)) r a t = ground arith
handle-IsTracked (ends_rotation (rejected e)) r a t = ground arith

Reach-IsTracked : (r : Running) → Reach r → IsTracked r
Reach-IsTracked _ mount = ground arith
Reach-IsTracked _ (step e r reach a) = handle-IsTracked e r a (Reach-IsTracked r reach)

-- In whatever order the buttons are pressed, the confirmation is opened and closed and calls end, there is
-- never more than one download and one rotation in flight, the buttons are disabled just while there is
-- one, and a card that is busy does not stay so: it is not busy once what is in flight has ended,
-- however it ends.
pub Reach-ends :
    (r : Running)
    → Reach r
    → (r.downloads ≤ 1)
      × (r.rotations ≤ 1)
      × (is_busy r.card ≡ true → 0 < r.downloads + r.rotations)
      × (0 < r.downloads + r.rotations → is_busy r.card ≡ true)
      × ((download rotation : Settled Text)
          → is_busy (handle (ends_rotation rotation) (handle (ends_download download) r)).card
            ≡ false)
unfolding handle download_settled rotate_settled
Reach-ends r reach =
    let t = Reach-IsTracked r reach in
    (ground (arith, t), ground (arith, t), ground (arith, t), ground (arith, t), ends)
  where
    ends :
        (download rotation : Settled Text)
        → is_busy (handle (ends_rotation rotation) (handle (ends_download download) r)).card ≡ false
    ends (fulfilled a) (fulfilled b) = refl
    ends (fulfilled a) (rejected b) = refl
    ends (rejected a) (fulfilled b) = refl
    ends (rejected a) (rejected b) = refl
