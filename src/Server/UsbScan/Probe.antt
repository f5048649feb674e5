-- ===== src/Server/UsbScan/Probe.antt =====
-- What a probed USB device tells of itself, and the device entry that is made of it.
use odyssey_desktop.Prelude.{
  ℕ, zero, suc, ◌+◌, Bool, true, false, Option, none, some, [], Bytes, if◌then◌else◌,
}
use odyssey_desktop.Common.Device.{
  Device, DeviceCapabilities, Version, Transport, EventsTransport, control, events, dfu, insert,
  name_bytes,
}
use odyssey_desktop.Server.DeviceTask.State.{Parts, TransportMode, usb_mode, ble_mode}
use odyssey_desktop.Server.DeviceTask.Loop.{Start}

-- `protodongers::ProductId`
pub data ProductId : Type 0 where
  mux ats_vm ats_lite ats_pro : ProductId

-- One reading of the UUID.
pub data UuidAnswer : Type 0 where
  read_as : Bytes → UuidAnswer
  other_prop : UuidAnswer
  failed_read : UuidAnswer

-- `AtsLite` and `AtsPro` have a control endpoint, where nothing but a UUID can be read.
unfoldable pub by_control : ProductId → Bool
by_control mux = false
by_control ats_vm = false
by_control ats_lite = true
by_control ats_pro = true

-- The loop `for attempt in 1..=3`, with the attempts that are left: the result, and how often the
-- device was asked.
unfoldable pub read_attempts : Bool → ℕ → ℕ → (ℕ → UuidAnswer) → Option Bytes × ℕ
read_attempts ctrl zero attempt answer = (none, 0)
read_attempts ctrl (suc left) attempt answer =
    let (uuid, asked) = read_attempts ctrl left (attempt + 1) answer in
    elim (answer attempt) [
      | read_as bytes ↦ (some bytes, 1)
      | other_prop ↦ if ctrl then (uuid, asked + 1) else (none, 1)
      | failed_read ↦ (uuid, asked + 1)
    ]

unfoldable pub read_uuid_with_retry : ProductId → (ℕ → UuidAnswer) → Option Bytes × ℕ
unfolding read_attempts by_control
read_uuid_with_retry product_id answer = read_attempts (by_control product_id) 3 1 answer

pub record Probe (P : Parts) : Type 0 where
  pub link : P.VmDevice
  pub uuid_answer : ℕ → UuidAnswer
  pub version : Option Version
  pub transport_mode : Option TransportMode
  pub events_version : Option Version

-- A USB device of the enumeration, and what `connect_usb_any_mode` makes of it; for a dongle, what
-- `MuxDevice::connect_usb` and the subscription to its list do.
pub record Seen (P : Parts) : Type 0 where
  pub vendor_id : ℕ
  pub product_id : ℕ
  pub id : Bytes
  pub serial_number : Option Bytes
  pub product_string : Option Bytes
  pub has_dfu_iface : Bool
  pub probe : Option (Probe P)
  pub hub_connects : Bool
  pub hub_subscribes : Bool

abbrev pub no_version : Version
no_version = record { major = 0; minor = 0; patch = 0 }

unfoldable pub version_or_zero : Option Version → Version
version_or_zero none = no_version
version_or_zero (some v) = v

-- A mode that cannot be read is taken for USB.
unfoldable pub mode_or_usb : Option TransportMode → TransportMode
mode_or_usb none = usb_mode
mode_or_usb (some m) = m

unfoldable pub is_usb_mode : TransportMode → Bool
is_usb_mode usb_mode = true
is_usb_mode ble_mode = false

unfoldable pub name_or_empty : Option Bytes → Bytes
name_or_empty none = []
name_or_empty (some s) = s

unfoldable pub probe_capabilities : Bool → Bool → DeviceCapabilities
unfolding insert
probe_capabilities in_usb_mode has_dfu_iface =
    let c0 : DeviceCapabilities = record { bits = control } in
    let c1 = if in_usb_mode then insert c0 events else c0 in
    if has_dfu_iface then insert c1 dfu else c1

-- The entry of a device that has only its bootloader or a broken protocol.
unfoldable pub dfu_device : Bytes → ℕ → Device
dfu_device u pid = record {
  uuid = u;
  transport = Transport.usb;
  capabilities = record { bits = dfu };
  firmware_version = no_version;
  events_transport = EventsTransport.wired;
  events_connected = false;
  product_id = pid;
  name = name_bytes [];
}

module _ {P : Parts} where
  unfoldable pub probe_in_usb_mode : Probe P → Bool
  unfolding is_usb_mode mode_or_usb
  probe_in_usb_mode p = is_usb_mode (mode_or_usb p.transport_mode)

  -- `device_meta`
  unfoldable pub device_of_probe : Seen P → Probe P → Bytes → Device
  unfolding probe_in_usb_mode probe_capabilities version_or_zero name_or_empty
  device_of_probe s p u =
      let in_usb_mode = probe_in_usb_mode p in
      record {
        uuid = u;
        transport = Transport.usb;
        capabilities = probe_capabilities in_usb_mode s.has_dfu_iface;
        firmware_version = version_or_zero p.version;
        events_transport = if in_usb_mode then EventsTransport.wired else EventsTransport.bluetooth;
        events_connected = in_usb_mode;
        product_id = s.product_id;
        name = name_bytes (name_or_empty s.product_string);
      }

  -- `connections`, and the other arguments of the task that is spawned.
  unfoldable pub start_of_probe : Seen P → Probe P → Bytes → Start P
  unfolding device_of_probe probe_in_usb_mode version_or_zero
  start_of_probe s p u = record {
    control_link = some p.link;
    events_link = if probe_in_usb_mode p then some p.link else none;
    device_meta = device_of_probe s p u;
    events_protocol = if probe_in_usb_mode p then version_or_zero p.events_version else no_version;
    with_hub = false;
  }
