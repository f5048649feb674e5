-- ===== src/Interface/Events/Tests.antt =====
-- A device and a tracking event, with numbers for `f32` and for packets, and the theorems at them.
use odyssey_desktop.Prelude.{
  ℕ, ◌≡◌, ◌≤◌, ◌⊎◌, ◌↔◌, refl, true, false, Option, none, some, [], ◌∷◌, arith, Bytes, done, panic,
  ok, replicate,
}
use odyssey_desktop.Common.Device.{Device, Transport, EventsTransport, name_bytes, name_str}
use odyssey_desktop.Common.Events.{Event, DeviceEventKind}
use odyssey_desktop.Interface.Proto
use odyssey_desktop.Interface.Devices.{device_to_proto, device_from_proto}
use odyssey_desktop.Interface.Devices.RoundTrip.{
  IsDevice, renamed, device_from_proto-device_to_proto, device_from_proto_panics,
}
use odyssey_desktop.Interface.Events.{event_to_proto, event_from_proto}
use odyssey_desktop.Interface.Events.RoundTrip.{received, event-round_trip}

abbrev lite_one : Device
lite_one = record {
  uuid = 1 ∷ 2 ∷ 3 ∷ 4 ∷ 5 ∷ 6 ∷ [];
  transport = Transport.usb_mux;
  capabilities = record { bits = 3 };
  firmware_version = record { major = 0; minor = 1; patch = 2 };
  events_transport = EventsTransport.bluetooth;
  events_connected = true;
  product_id = 0x5211;
  name = b'a' ∷ replicate 32 0;
}

lite_one-IsDevice : IsDevice lite_one
lite_one-IsDevice = record {
  uuid = refl;
  capabilities = omega arith;
  product_id = omega arith;
  major = omega arith;
  minor = omega arith;
  patch = omega arith;
}

lite_one-renamed : renamed lite_one ≡ lite_one
unfolding name_bytes name_str
lite_one-renamed = refl

device_from_proto-device_to_proto_example :
    device_from_proto (device_to_proto lite_one) ≡ done (renamed lite_one)
device_from_proto-device_to_proto_example =
    device_from_proto-device_to_proto lite_one lite_one-IsDevice

-- A device of a transport that is no variant.
abbrev strange : Proto.Device
strange = record {
  uuid = [];
  transport = 7;
  firmware_version = none;
  capabilities = 0;
  events_transport = 0;
  events_connected = false;
  product_id = 0;
  name = [];
}

device_from_proto_panics_example : (device_from_proto strange ≡ panic) ↔ ((3 ≤ 7) ⊎ (2 ≤ 0))
device_from_proto_panics_example = device_from_proto_panics strange

abbrev to_allocvec : ℕ → Option Bytes
to_allocvec n = some (n ∷ [])

abbrev from_bytes : Bytes → Option ℕ
from_bytes [] = none
from_bytes (n ∷ bs) = some n

abbrev sent : Event ℕ ℕ
sent = Event.device_event lite_one (DeviceEventKind.packet_event 5)

event-round_trip_example :
    (p : Proto.Event ℕ) × (event_to_proto to_allocvec sent ≡ done p)
    × (event_from_proto from_bytes p ≡ done (ok (received sent)))
event-round_trip_example =
    event-round_trip to_allocvec from_bytes (λ n. (n ∷ [], refl, refl)) sent (lite_one-IsDevice, tt)
