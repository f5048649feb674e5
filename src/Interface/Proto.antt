-- ===== src/Interface/Proto.antt =====
-- The types that are generated from odyssey_hub_server_interface/proto/service_interface.proto, as
-- far as lib.rs converts them. A message field is an `Option`, an enum field is the number of its
-- variant as it was received (an `i32`; the negative ones, which like the large ones are no variant,
-- are left out).
use odyssey_desktop.Prelude.{ℕ, Bool, Option, none, some, List, Bytes, ◌==◌, if◌then◌else◌}

module _ (F : Type 0) where
  pub record Matrix3x3 : Type 0 where
    pub m11 : F
    pub m12 : F
    pub m13 : F
    pub m21 : F
    pub m22 : F
    pub m23 : F
    pub m31 : F
    pub m32 : F
    pub m33 : F

  pub record Matrix3x1 : Type 0 where
    pub m11 : F
    pub m21 : F
    pub m31 : F

  pub record Vector2 : Type 0 where
    pub x : F
    pub y : F

  pub record Vector3 : Type 0 where
    pub x : F
    pub y : F
    pub z : F

  pub record Pose : Type 0 where
    pub rotation : Option Matrix3x3
    pub translation : Option Matrix3x1

pub data Transport : Type 0 where
  usb usb_mux udp_mux : Transport

pub data EventsTransport : Type 0 where
  wired bluetooth : EventsTransport

pub record FirmwareVersion : Type 0 where
  pub major : ℕ
  pub minor : ℕ
  pub patch : ℕ

pub record Device : Type 0 where
  pub uuid : Bytes
  pub transport : ℕ
  pub firmware_version : Option FirmwareVersion
  pub capabilities : ℕ
  pub events_transport : ℕ
  pub events_connected : Bool
  pub product_id : ℕ
  pub name : Bytes

module _ (F : Type 0) where
  pub record AccelerometerEvent : Type 0 where
    pub timestamp : ℕ
    pub acceleration : Option (Vector3 F)
    pub angular_velocity : Option (Vector3 F)
    pub euler_angles : Option (Vector3 F)

  pub record TrackingEvent : Type 0 where
    pub timestamp : ℕ
    pub aimpoint : Option (Vector2 F)
    pub pose : Option (Pose F)
    pub distance : F
    pub screen_id : ℕ

pub record ImpactEvent : Type 0 where
  pub timestamp : ℕ

pub record PacketEvent : Type 0 where
  pub bytes : Bytes

pub record ZeroResultEvent : Type 0 where
  pub success : Bool

pub record SaveZeroResultEvent : Type 0 where
  pub success : Bool

pub record PairingResultEvent : Type 0 where
  pub success : Bool
  pub paired_address : Bytes
  pub error : Bytes
  pub paired_name : Bytes

pub record BatteryEvent : Type 0 where
  pub percent : ℕ
  pub charging : Bool

pub data DeviceEventOneof (F : Type 0) : Type 0 where
  accelerometer : AccelerometerEvent F → DeviceEventOneof F
  tracking : TrackingEvent F → DeviceEventOneof F
  impact : ImpactEvent → DeviceEventOneof F
  packet : PacketEvent → DeviceEventOneof F
  zero_result : ZeroResultEvent → DeviceEventOneof F
  save_zero_result : SaveZeroResultEvent → DeviceEventOneof F
  capabilities_changed : DeviceEventOneof F
  pairing_result : PairingResultEvent → DeviceEventOneof F
  battery : BatteryEvent → DeviceEventOneof F

pub record DonglePairingResultEvent : Type 0 where
  pub dongle_id : Bytes
  pub success : Bool
  pub paired_address : Bytes
  pub error : Bytes
  pub paired_name : Bytes

pub record DeviceEvent (F : Type 0) : Type 0 where
  pub device : Option Device
  pub device_event_oneof : Option (DeviceEventOneof F)

pub data EventOneof (F : Type 0) : Type 0 where
  device : DeviceEvent F → EventOneof F
  dongle_pairing_result : DonglePairingResultEvent → EventOneof F

pub record Event (F : Type 0) : Type 0 where
  pub event_oneof : Option (EventOneof F)

-- The numbers of the variants, and `try_from`.
unfoldable pub transport_number : Transport → ℕ
transport_number usb = 0
transport_number usb_mux = 1
transport_number udp_mux = 2

unfoldable pub transport_of : ℕ → Option Transport
transport_of n =
    if n == 0
    then some usb
    else if n == 1
    then some usb_mux
    else if n == 2
    then some udp_mux
    else none

unfoldable pub events_transport_number : EventsTransport → ℕ
events_transport_number wired = 0
events_transport_number bluetooth = 1

unfoldable pub events_transport_of : ℕ → Option EventsTransport
events_transport_of n = if n == 0 then some wired else if n == 1 then some bluetooth else none

pub data AccessoryType : Type 0 where
  dry_fire_mag mantis_x : AccessoryType

pub data AccessoryFeature : Type 0 where
  impact : AccessoryFeature

pub record AccessoryInfo : Type 0 where
  pub name : Bytes
  pub ty : ℕ
  pub assignment : ℕ
  pub features : List ℕ

pub record AccessoryStatus : Type 0 where
  pub accessory : Option AccessoryInfo
  pub connected : Bool

unfoldable pub accessory_type_number : AccessoryType → ℕ
accessory_type_number AccessoryType.dry_fire_mag = 0
accessory_type_number AccessoryType.mantis_x = 1

unfoldable pub accessory_type_of : ℕ → Option AccessoryType
accessory_type_of n =
    if n == 0
    then some AccessoryType.dry_fire_mag
    else if n == 1
    then some AccessoryType.mantis_x
    else none

unfoldable pub accessory_feature_number : AccessoryFeature → ℕ
accessory_feature_number AccessoryFeature.impact = 0

unfoldable pub accessory_feature_of : ℕ → Option AccessoryFeature
accessory_feature_of n = if n == 0 then some AccessoryFeature.impact else none
