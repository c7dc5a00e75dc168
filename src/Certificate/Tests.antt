-- ===== src/Certificate/Tests.antt =====
-- The theorem about the card of the certificate while a download is in flight.
use gps_connector.Prelude.{◌≡◌, ◌<◌, ◌≤◌, ◌+◌, Text, true, false}
use gps_connector.Promise.{Settled}
use gps_connector.Certificate.{is_busy}
use gps_connector.Certificate.Steps.{
  Running, at_rest, presses_download, ends_download, ends_rotation, handle, mount, step, Reach-ends,
}

abbrev downloading : Running
downloading = handle presses_download at_rest

Reach-ends_example :
    (downloading.downloads ≤ 1)
    × (downloading.rotations ≤ 1)
    × (is_busy downloading.card ≡ true → 0 < downloading.downloads + downloading.rotations)
    × (0 < downloading.downloads + downloading.rotations → is_busy downloading.card ≡ true)
    × ((download rotation : Settled Text)
        → is_busy
            (handle (ends_rotation rotation) (handle (ends_download download) downloading)).card
          ≡ false)
Reach-ends_example = Reach-ends downloading (step presses_download at_rest mount tt)
