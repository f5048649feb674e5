-- ===== src/Server/Firmware/Manifest/Tests.antt =====
-- Versions and a manifest of three firmwares, and the theorems at them.
use odyssey_desktop.Prelude.{◌≡◌, refl, none, some, List, [], ◌∷◌, arith, Bytes, bytes_inst}
use odyssey_desktop.Prelude.Assoc.{lookup}
use odyssey_desktop.Common.Device.{Version}
use odyssey_desktop.Server.Firmware.Manifest.{
  FirmwareManifest, FirmwareEntry, version_parts, find_compatible_firmware,
}
use odyssey_desktop.Server.Firmware.Manifest.Choice.{
  IsBest, firmwares_of, NewestFirst, find_compatible_firmware-IsBest,
}

abbrev entry : Bytes → FirmwareEntry
entry v = record { version = v; files = []; released = [] }

abbrev v012 : Version
v012 = record { major = 0; minor = 1; patch = 2 }

abbrev v013 : Version
v013 = record { major = 0; minor = 1; patch = 3 }

-- "0.2.0", "0.1.3", "0.1"
abbrev stock : List FirmwareEntry
stock =
    entry (b'0' ∷ b'.' ∷ b'2' ∷ b'.' ∷ b'0' ∷ [])
    ∷ entry (b'0' ∷ b'.' ∷ b'1' ∷ b'.' ∷ b'3' ∷ [])
    ∷ entry (b'0' ∷ b'.' ∷ b'1' ∷ [])
    ∷ []

abbrev releases : FirmwareManifest
releases = record { version = 1; devices = (b'a' ∷ [], record { firmwares = stock }) ∷ [] }

version_parts-samples :
    (version_parts (entry (b'0' ∷ b'.' ∷ b'1' ∷ b'.' ∷ b'3' ∷ [])) ≡ some v013)
    × (version_parts (entry (b'0' ∷ b'.' ∷ b'1' ∷ [])) ≡ none)
unfolding version_parts
version_parts-samples = (refl, refl)

-- Of "0.2.0" and "0.1.3" the second is offered to a device at 0.1.2.
find_compatible_firmware-releases :
    find_compatible_firmware releases (b'a' ∷ []) v012
    ≡ some (entry (b'0' ∷ b'.' ∷ b'1' ∷ b'.' ∷ b'3' ∷ []))
unfolding find_compatible_firmware
find_compatible_firmware-releases = refl

stock-NewestFirst : NewestFirst (firmwares_of releases (b'a' ∷ []))
unfolding lookup version_parts
stock-NewestFirst = ((omega arith, (tt, tt)), ((tt, tt), (tt, tt)))

find_compatible_firmware-IsBest_example :
    IsBest v012
      (firmwares_of releases (b'a' ∷ []))
      (find_compatible_firmware releases (b'a' ∷ []) v012)
find_compatible_firmware-IsBest_example =
    find_compatible_firmware-IsBest releases (b'a' ∷ []) v012
      (record { major = omega arith; minor = omega arith; patch = omega arith }) stock-NewestFirst
