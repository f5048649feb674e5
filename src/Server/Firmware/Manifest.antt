-- ===== src/Server/Firmware/Manifest.antt =====
-- The first part of firmware.rs: the manifest, versions, and the choice of a firmware.
pub mod Order
pub mod Choice
pub mod Tests
use odyssey_desktop.Prelude.{
  ℕ, ◌+◌, ◌-◌, ◌*◌, ◌^◌, Bool, ◌&&◌, not, Option, none, some, List, [], ◌∷◌, ltb, leb, ◌==◌,
  if◌then◌else◌, Bytes, bytes_inst,
}
use odyssey_desktop.Prelude.Assoc.{Map, lookup}
use odyssey_desktop.Prelude.Maybe.{◌>>=◌}
use odyssey_desktop.Common.Device.{Version}

pub record FileEntry : Type 0 where
  pub sha256 : Bytes
  pub size : ℕ

pub record FirmwareEntry : Type 0 where
  pub version : Bytes
  pub files : Map Bytes FileEntry
  pub released : Bytes

pub record DeviceManifest : Type 0 where
  pub firmwares : List FirmwareEntry

pub record FirmwareManifest : Type 0 where
  pub version : ℕ
  pub devices : Map Bytes DeviceManifest

-- The digits of a `u16`, with its overflow check.
pub decimal_digits : ℕ → Bytes → Option ℕ
decimal_digits acc [] = some acc
decimal_digits acc (c ∷ s) =
    let n = acc * 10 + (c - 48) in
    let rest = decimal_digits n s in
    if leb b'0' c && leb c b'9' && ltb n (2 ^ 16) then rest else none

-- `str::parse::<u16>`: at least one digit, after at most one `+`.
pub parse_u16 : Bytes → Option ℕ
unfolding decimal_digits
parse_u16 [] = none
parse_u16 (c ∷ []) = decimal_digits 0 (c ∷ [])
parse_u16 (c ∷ d ∷ s) = if c == b'+' then decimal_digits 0 (d ∷ s) else decimal_digits 0 (c ∷ d ∷ s)

-- One more byte at the front of the first part.
extend : ℕ → List Bytes → List Bytes
extend c [] = (c ∷ []) ∷ []
extend c (p ∷ ps) = (c ∷ p) ∷ ps

-- `str::split`, by a byte.
pub split_by : ℕ → Bytes → List Bytes
unfolding extend
split_by sep [] = [] ∷ []
split_by sep (c ∷ s) = let rest = split_by sep s in if c == sep then [] ∷ rest else extend c rest

-- The parts of the array that `version_parts` builds, once there are three.
three_parts : List Bytes → Option Version
unfolding parse_u16
three_parts (a ∷ b ∷ c ∷ []) = do
  major ← parse_u16 a
  minor ← parse_u16 b
  patch ← parse_u16 c
  some (record { major = major; minor = minor; patch = patch })
three_parts _ = none

pub version_parts : FirmwareEntry → Option Version
unfolding split_by three_parts
version_parts e = three_parts (split_by b'.' e.version)

pub versions_compatible : Version → Version → Bool
versions_compatible device manifest =
    if device.major == 0 && manifest.major == 0
    then device.minor == manifest.minor
    else device.major == manifest.major

pub version_newer : Version → Version → Bool
version_newer device manifest =
    if not (manifest.major == device.major)
    then ltb device.major manifest.major
    else if not (manifest.minor == device.minor)
    then ltb device.minor manifest.minor
    else ltb device.patch manifest.patch

-- The loop over the firmwares.
pub first_compatible : Version → List FirmwareEntry → Option FirmwareEntry
unfolding version_parts versions_compatible version_newer
first_compatible device_version [] = none
first_compatible device_version (firmware ∷ rest) =
    let later = first_compatible device_version rest in
    elim (version_parts firmware) [
      | none ↦ later
      | some fw_version ↦
          if versions_compatible device_version fw_version
            && version_newer device_version fw_version
          then some firmware
          else later
    ]

pub find_compatible_firmware : FirmwareManifest → Bytes → Version → Option FirmwareEntry
unfolding first_compatible lookup
find_compatible_firmware manifest device_type device_version = do
  device_manifest ← lookup device_type (FirmwareManifest.devices manifest)
  first_compatible device_version (DeviceManifest.firmwares device_manifest)

-- `slice::first`
first_of : List FirmwareEntry → Option FirmwareEntry
first_of [] = none
first_of (x ∷ xs) = some x

pub find_latest_firmware : FirmwareManifest → Bytes → Option FirmwareEntry
unfolding first_of lookup
find_latest_firmware manifest device_type = do
  device_manifest ← lookup device_type (FirmwareManifest.devices manifest)
  first_of (DeviceManifest.firmwares device_manifest)
