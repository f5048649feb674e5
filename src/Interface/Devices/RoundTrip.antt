-- ===== src/Interface/Devices/RoundTrip.antt =====
-- A device survives the way over the wire, but for what lies behind its name.
use odyssey_desktop.Prelude.{
  ◌^◌, ◌<◌, ◌≡◌, ◌⊎◌, ◌↔◌, ◌≤◌, refl, arith, Bytes, length, done, panic, some,
}
use mathlib.Core.Option
use native.Mathlib.Nat.{mod-eq_of_lt}
use odyssey_desktop.Common.Device.{
  Device, Version, Transport, EventsTransport, name_str, name_bytes,
}
use odyssey_desktop.Interface.Proto
use odyssey_desktop.Interface.Devices.{
  device_to_proto, device_from_proto, six_bytes, version_to_proto, version_from_proto,
  transport_to_proto, transport_from_proto, events_transport_to_proto, events_transport_from_proto,
}

-- The integers fit their types, and the UUID has six bytes.
pub record IsDevice (d : Device) : Type 0 where
  pub uuid : length d.uuid ≡ 6
  pub capabilities : d.capabilities.bits < 2 ^ 8
  pub product_id : d.product_id < 2 ^ 16
  pub major : d.firmware_version.major < 2 ^ 16
  pub minor : d.firmware_version.minor < 2 ^ 16
  pub patch : d.firmware_version.patch < 2 ^ 16

abbrev pub renamed : Device → Device
renamed d = record d { name = name_bytes (name_str d) }

six_bytes_self : (s : Bytes) → length s ≡ 6 → six_bytes s ≡ s
unfolding six_bytes
six_bytes_self s h = ground (arith, h)

version-round_trip :
    (v : Version)
    → v.major < 2 ^ 16
    → v.minor < 2 ^ 16
    → v.patch < 2 ^ 16
    → version_from_proto (version_to_proto v) ≡ v
unfolding version_from_proto version_to_proto
version-round_trip v a b c = ground (arith, mod-eq_of_lt a, mod-eq_of_lt b, mod-eq_of_lt c)

transport-round_trip :
    (t : Transport)
    → Option.map transport_from_proto
        (Proto.transport_of (Proto.transport_number (transport_to_proto t)))
      ≡ some t
unfolding transport_to_proto transport_from_proto Proto.transport_of Proto.transport_number
transport-round_trip Transport.usb = refl
transport-round_trip Transport.usb_mux = refl
transport-round_trip Transport.udp_mux = refl

events_transport-round_trip :
    (t : EventsTransport)
    → Option.map events_transport_from_proto
        (Proto.events_transport_of (Proto.events_transport_number (events_transport_to_proto t)))
      ≡ some t
unfolding events_transport_to_proto events_transport_from_proto Proto.events_transport_of
    Proto.events_transport_number
events_transport-round_trip EventsTransport.wired = refl
events_transport-round_trip EventsTransport.bluetooth = refl

-- A device whose integers fit their types arrives as it was sent, but for its name buffer, which is
-- written anew from its text.
pub device_from_proto-device_to_proto :
    (d : Device) → IsDevice d → device_from_proto (device_to_proto d) ≡ done (renamed d)
unfolding device_from_proto device_to_proto
device_from_proto-device_to_proto d v = ground (
  arith,
  transport-round_trip d.transport,
  events_transport-round_trip d.events_transport,
  version-round_trip d.firmware_version v.major v.minor v.patch,
  six_bytes_self d.uuid v.uuid,
  mod-eq_of_lt v.capabilities,
  mod-eq_of_lt v.product_id,
)

-- A device that was received panics in the conversion exactly if its transport or its events
-- transport is no variant.
pub device_from_proto_panics :
    (p : Proto.Device)
    → (device_from_proto p ≡ panic) ↔ ((3 ≤ p.transport) ⊎ (2 ≤ p.events_transport))
unfolding device_from_proto Proto.transport_of Proto.events_transport_of
device_from_proto_panics p = ground arith
