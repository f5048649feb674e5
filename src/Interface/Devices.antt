-- ===== src/Interface/Devices.antt =====
-- odyssey_hub_server_interface/src/lib.rs, the vectors, matrices and devices. A conversion that
-- calls `unwrap` or `expect` returns an `Outcome`.
pub mod RoundTrip
use odyssey_desktop.Prelude.{
  ◌%◌, ◌^◌, ◌&&◌, Option, none, some, Bytes, ltb, ◌==◌, if◌then◌else◌, min, length, replicate,
  Outcome, done, ◌>>=◌, unwrap,
}
use odyssey_desktop.Common.Device.{
  Device, Version, Transport, EventsTransport, name_str, name_bytes, copy_prefix,
}
use odyssey_desktop.Common.Events.{Vector2, Vector3, Matrix3}
use odyssey_desktop.Interface.Proto

module _ {F : Type 0} where
  abbrev pub matrix3x1_to_proto : Vector3 F → Proto.Matrix3x1 F
  matrix3x1_to_proto v = record { m11 = v.x; m21 = v.y; m31 = v.z }

  abbrev pub matrix3x1_from_proto : Proto.Matrix3x1 F → Vector3 F
  matrix3x1_from_proto v = record { x = v.m11; y = v.m21; z = v.m31 }

  abbrev pub matrix3x3_to_proto : Matrix3 F → Proto.Matrix3x3 F
  matrix3x3_to_proto m = record {
    m11 = m.m11;
    m12 = m.m12;
    m13 = m.m13;
    m21 = m.m21;
    m22 = m.m22;
    m23 = m.m23;
    m31 = m.m31;
    m32 = m.m32;
    m33 = m.m33;
  }

  abbrev pub matrix3x3_from_proto : Proto.Matrix3x3 F → Matrix3 F
  matrix3x3_from_proto m = record {
    m11 = m.m11;
    m12 = m.m12;
    m13 = m.m13;
    m21 = m.m21;
    m22 = m.m22;
    m23 = m.m23;
    m31 = m.m31;
    m32 = m.m32;
    m33 = m.m33;
  }

  abbrev pub vector2_to_proto : Vector2 F → Proto.Vector2 F
  vector2_to_proto v = record { x = v.x; y = v.y }

  abbrev pub vector2_from_proto : Proto.Vector2 F → Vector2 F
  vector2_from_proto v = record { x = v.x; y = v.y }

  abbrev pub vector3_to_proto : Vector3 F → Proto.Vector3 F
  vector3_to_proto v = record { x = v.x; y = v.y; z = v.z }

  abbrev pub vector3_from_proto : Proto.Vector3 F → Vector3 F
  vector3_from_proto v = record { x = v.x; y = v.y; z = v.z }

pub transport_to_proto : Transport → Proto.Transport
transport_to_proto Transport.usb = Proto.usb
transport_to_proto Transport.usb_mux = Proto.usb_mux
transport_to_proto Transport.udp_mux = Proto.udp_mux

pub transport_from_proto : Proto.Transport → Transport
transport_from_proto Proto.usb = Transport.usb
transport_from_proto Proto.usb_mux = Transport.usb_mux
transport_from_proto Proto.udp_mux = Transport.udp_mux

pub events_transport_to_proto : EventsTransport → Proto.EventsTransport
events_transport_to_proto EventsTransport.wired = Proto.wired
events_transport_to_proto EventsTransport.bluetooth = Proto.bluetooth

pub events_transport_from_proto : Proto.EventsTransport → EventsTransport
events_transport_from_proto Proto.wired = EventsTransport.wired
events_transport_from_proto Proto.bluetooth = EventsTransport.bluetooth

-- A version of three zeros is unknown.
pub version_to_proto : Version → Option Proto.FirmwareVersion
version_to_proto v =
    if v.major == 0 && v.minor == 0 && v.patch == 0
    then none
    else some (record { major = v.major; minor = v.minor; patch = v.patch })

pub version_from_proto : Option Proto.FirmwareVersion → Version
version_from_proto none = record { major = 0; minor = 0; patch = 0 }
version_from_proto (some v) = record {
  major = v.major % 2 ^ 16;
  minor = v.minor % 2 ^ 16;
  patch = v.patch % 2 ^ 16;
}

-- `[u8; 6]` of what was received: cut, or padded with zeros.
unfoldable pub six_bytes : Bytes → Bytes
six_bytes bytes =
    let uuid = replicate 6 0 in
    if length bytes == 6
    then bytes
    else if ltb 0 (length bytes)
    then (let len = min 6 (length bytes) in copy_prefix uuid bytes len)
    else uuid

pub device_to_proto : Device → Proto.Device
unfolding transport_to_proto events_transport_to_proto version_to_proto
device_to_proto d = record {
  uuid = d.uuid;
  transport = Proto.transport_number (transport_to_proto d.transport);
  firmware_version = version_to_proto d.firmware_version;
  capabilities = d.capabilities.bits;
  events_transport = Proto.events_transport_number (events_transport_to_proto d.events_transport);
  events_connected = d.events_connected;
  product_id = d.product_id;
  name = name_str d;
}

pub device_from_proto : Proto.Device → Outcome Device
unfolding transport_from_proto events_transport_from_proto version_from_proto six_bytes
device_from_proto d = do
  transport ← unwrap (Proto.transport_of d.transport)
  events_transport ← unwrap (Proto.events_transport_of d.events_transport)
  done (record {
    uuid = six_bytes d.uuid;
    transport = transport_from_proto transport;
    capabilities = record { bits = d.capabilities % 2 ^ 8 };
    firmware_version = version_from_proto d.firmware_version;
    events_transport = events_transport_from_proto events_transport;
    events_connected = d.events_connected;
    product_id = d.product_id % 2 ^ 16;
    name = name_bytes d.name;
  })
