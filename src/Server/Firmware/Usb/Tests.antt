-- ===== src/Server/Firmware/Usb/Tests.antt =====
-- Two devices of one kind, and the theorems at them. A device is its serial number.
use odyssey_desktop.Prelude.{ℕ, ◌≡◌, refl, true, some, List, [], ◌∷◌, Bytes, Result, ok}
use odyssey_desktop.Server.Firmware.Usb.{UsbApi, serial_matches, find_device, find_device_by_uuid}
use odyssey_desktop.Server.Firmware.Usb.Search.{IsFound, find_device_by_uuid-IsFound}

abbrev api : UsbApi Bytes
api = record { vendor_id = λ d. 0x1915; product_id = λ d. 0x5211; serial_number = λ d. some d }

abbrev uuid : Bytes
uuid = 0xAA ∷ 0xBB ∷ 0xCC ∷ 0xDD ∷ 0xEE ∷ 0x0F ∷ []

-- "aabb-ccddee0f"
abbrev serial : Bytes
serial =
    b'a' ∷ b'a' ∷ b'b' ∷ b'b' ∷ b'-' ∷ b'c' ∷ b'c' ∷ b'd' ∷ b'd' ∷ b'e' ∷ b'e' ∷ b'0' ∷ b'f' ∷ []

abbrev devices : List Bytes
devices = (b'1' ∷ []) ∷ serial ∷ []

serial_matches-serial : serial_matches uuid serial ≡ true
unfolding serial_matches
serial_matches-serial = refl

abbrev listing : Result (List Bytes) ℕ
listing = ok devices

-- By its UUID the second device is found, by its kind the first.
find_device-devices :
    (find_device_by_uuid api uuid listing 0x1915 0x5211 ≡ ok serial)
    × (find_device api listing 0x1915 0x5211 ≡ ok (b'1' ∷ []))
unfolding find_device find_device_by_uuid serial_matches
find_device-devices = (refl, refl)

find_device_by_uuid-IsFound_example :
    IsFound {E = ℕ} api uuid 0x1915 0x5211 devices
      (find_device_by_uuid api uuid listing 0x1915 0x5211)
find_device_by_uuid-IsFound_example = find_device_by_uuid-IsFound api uuid 0x1915 0x5211 ℕ devices
