-- ===== src/Locations/Partition.antt =====
-- Which devices are vehicles on the map and which are listed as without location.
use gps_connector.Prelude.{
  ℕ, ◌≡◌, refl, inl, inr, ◌⊎◌, Text, List, [], ◌∷◌, map, filter_map, ◌++◌, Option-cases,
}
use mathlib.Core.List.{Perm, perm_middle}
use mathlib.Core.List.Perm
use gps_connector.Client.{Device}
use gps_connector.Locations.{
  VehicleLocation, PendingDevice, device_to_pending, device_to_vehicle, located, vehicle_of,
  pending_of,
}

abbrev pub pending_imei : PendingDevice → Text
pending_imei p = p.imei

module _ {Num : Type 0} where
  abbrev pub vehicle_imei : VehicleLocation Num → Text
  vehicle_imei v = v.imei

  abbrev pub device_imei : Device Num → Text
  device_imei d = d.imei

  abbrev pendings : List (Device Num) → List Text
  pendings devices = map pending_imei (filter_map device_to_pending devices)

module _ {Num : Type 0} (iso : ℕ → Text) where
  abbrev vehicles : List (Device Num) → List Text
  vehicles devices = map vehicle_imei (filter_map (device_to_vehicle iso) devices)

  -- Where the IMEI of a device goes.
  split_device :
      (device : Device Num) (devices : List (Device Num))
      → ((vehicles (device ∷ devices) ≡ device.imei ∷ vehicles devices)
          × (pendings (device ∷ devices) ≡ pendings devices))
        ⊎ ((vehicles (device ∷ devices) ≡ vehicles devices)
            × (pendings (device ∷ devices) ≡ device.imei ∷ pendings devices))
  unfolding device_to_vehicle device_to_pending vehicle_of pending_of
  split_device device devices = elim (Option-cases (located device.latitude device.longitude)) [
    | inl e ↦ rw (e, filter_map, device_to_vehicle, device_to_pending) (inr (refl, refl))
    | inr (c, e) ↦ rw (e, filter_map, device_to_vehicle, device_to_pending) (inl (refl, refl))
  ]

  -- The IMEIs of the vehicles on the map and of the devices without location are together those of all
  -- devices, each as often: no device is lost or shown twice.
  pub vehicles_and_pending :
      (devices : List (Device Num))
      → Perm
          (map vehicle_imei (filter_map (device_to_vehicle iso) devices)
            ++ map pending_imei (filter_map device_to_pending devices))
          (map device_imei devices)
  vehicles_and_pending [] = Perm.refl []
  vehicles_and_pending (device ∷ devices) =
      let ih = vehicles_and_pending devices in
      elim (split_device device devices) [
        | inl (e, f) ↦ rw (e, f) (Perm.cons device.imei ih)
        | inr (e, f) ↦
            rw (e, f)
              (Perm.trans (perm_middle (vehicles devices) (pendings devices))
                (Perm.cons device.imei ih))
      ]
