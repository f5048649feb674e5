-- ===== src/Interface/Events/RoundTrip.antt =====
-- An event survives the way over the wire.
use odyssey_desktop.Prelude.{
  ◌^◌, ◌<◌, ◌≡◌, refl, arith, Bytes, length, done, ok, some, Option, min, take, take_all, ◌∙◌,
}
use mathlib.Core.List.{append-nil}
use odyssey_desktop.Common.Device.{copy_prefix}
use native.Mathlib.Nat.{mod-eq_of_lt}
use odyssey_desktop.Common.Events.{Event, DeviceEventKind}
use odyssey_desktop.Interface.Proto
use odyssey_desktop.Interface.Devices.{device_to_proto}
use odyssey_desktop.Interface.Devices.RoundTrip.{
  IsDevice, renamed, device_from_proto-device_to_proto,
}
use odyssey_desktop.Interface.Events.{
  address_of, kind_to_proto, kind_from_proto, tracking_from_proto, event_to_proto, event_from_proto,
  device_event_from_proto,
}

address_of_self : (s : Bytes) → length s ≡ 6 → address_of s ≡ s
unfolding address_of copy_prefix
address_of_self s h =
    rw (let e : min (length s) 6 ≡ 6 = omega (arith, h) in e)
      (append-nil (take 6 s) ∙ take_all s 6 (omega arith))

module _ {F Pkt : Type 0} where
  -- An address has six bytes, and a percentage fits a `u8`.
  abbrev pub IsKind : DeviceEventKind F Pkt → Type 0
  IsKind (DeviceEventKind.pairing_result e) = length e.paired_address ≡ 6
  IsKind (DeviceEventKind.battery_event e) = e.percent < 2 ^ 8
  IsKind _ = Unit

  abbrev pub IsEvent : Event F Pkt → Type 0
  IsEvent (Event.device_event d k) = IsDevice d × IsKind k
  IsEvent (Event.dongle_pairing_result id e) = length e.paired_address ≡ 6

  -- The event with the device's name buffer written anew.
  abbrev pub received : Event F Pkt → Event F Pkt
  received (Event.device_event d k) = Event.device_event (renamed d) k
  received (Event.dongle_pairing_result id e) = Event.dongle_pairing_result id e

  module _ (to_allocvec : Pkt → Option Bytes) (from_bytes : Bytes → Option Pkt)
      (codec : (p : Pkt) → (b : Bytes) × (to_allocvec p ≡ some b) × (from_bytes b ≡ some p)) where
    kind-round_trip :
        (k : DeviceEventKind F Pkt)
        → IsKind k
        → (p : Proto.DeviceEventOneof F) × (kind_to_proto to_allocvec k ≡ done p)
          × (kind_from_proto from_bytes p ≡ done k)
    unfolding kind_to_proto kind_from_proto tracking_from_proto
    kind-round_trip (DeviceEventKind.packet_event pkt) h =
        let (b, x, y) = codec pkt in
        (Proto.DeviceEventOneof.packet (record { bytes = b }), rw x refl, rw y refl)
    kind-round_trip (DeviceEventKind.pairing_result e) h =
        (_, refl, rw (address_of_self e.paired_address h) refl)
    kind-round_trip (DeviceEventKind.battery_event e) h = (_, refl, rw (mod-eq_of_lt h) refl)
    kind-round_trip (DeviceEventKind.accelerometer_event e) h = (_, refl, refl)
    kind-round_trip (DeviceEventKind.tracking_event e) h = (_, refl, refl)
    kind-round_trip (DeviceEventKind.impact_event e) h = (_, refl, refl)
    kind-round_trip (DeviceEventKind.zero_result e) h = (_, refl, refl)
    kind-round_trip (DeviceEventKind.save_zero_result e) h = (_, refl, refl)
    kind-round_trip DeviceEventKind.capabilities_changed h = (_, refl, refl)

    -- Where the packet codec reads back what it writes, every event is converted without a panic, and
    -- what arrives is the event, but for the device's name buffer, which is written anew from its
    -- text.
    pub event-round_trip :
        (e : Event F Pkt)
        → IsEvent e
        → (p : Proto.Event F) × (event_to_proto to_allocvec e ≡ done p)
          × (event_from_proto from_bytes p ≡ done (ok (received e)))
    unfolding event_to_proto event_from_proto device_event_from_proto
    event-round_trip (Event.dongle_pairing_result id e) h =
        (_, refl, rw (address_of_self e.paired_address h) refl)
    event-round_trip (Event.device_event d k) h =
        let (p, x, y) = kind-round_trip k h.1 in
        (
          record {
            event_oneof = some (
                Proto.EventOneof.device
                  (record { device = some (device_to_proto d); device_event_oneof = some p }));
          },
          rw x refl,
          rw (device_from_proto-device_to_proto d h.0) (rw y refl),
        )
