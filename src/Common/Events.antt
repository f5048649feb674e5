-- ===== src/Common/Events.antt =====
-- odyssey_hub_common/src/events.rs. `F` stands for `f32`, whose operations no event uses; `Pkt` for
-- the packet type of the crate ats_usb, which is not part of the repository.
use odyssey_desktop.Prelude.{ℕ, Bool, Bytes}
use odyssey_desktop.Common.Device.{Device}

module _ (F : Type 0) where
  pub record Vector2 : Type 0 where
    pub x : F
    pub y : F

  pub record Vector3 : Type 0 where
    pub x : F
    pub y : F
    pub z : F

  -- `nalgebra::Matrix3`, by its components.
  pub record Matrix3 : Type 0 where
    pub m11 : F
    pub m12 : F
    pub m13 : F
    pub m21 : F
    pub m22 : F
    pub m23 : F
    pub m31 : F
    pub m32 : F
    pub m33 : F

  pub record Pose : Type 0 where
    pub rotation : Matrix3
    pub translation : Vector3

  pub record AccelerometerEvent : Type 0 where
    pub timestamp : ℕ
    pub accel : Vector3
    pub gyro : Vector3
    pub euler_angles : Vector3

  pub record TrackingEvent : Type 0 where
    pub timestamp : ℕ
    pub aimpoint : Vector2
    pub pose : Pose
    pub distance : F
    pub screen_id : ℕ

pub record ImpactEvent : Type 0 where
  pub timestamp : ℕ

pub record BatteryEvent : Type 0 where
  pub percent : ℕ
  pub charging : Bool

pub record PairingResult : Type 0 where
  pub success : Bool
  pub paired_address : Bytes
  pub paired_name : Bytes
  pub error : Bytes

module _ (F Pkt : Type 0) where
  pub data DeviceEventKind : Type 0 where
    accelerometer_event : AccelerometerEvent F → DeviceEventKind
    tracking_event : TrackingEvent F → DeviceEventKind
    impact_event : ImpactEvent → DeviceEventKind
    zero_result : Bool → DeviceEventKind
    save_zero_result : Bool → DeviceEventKind
    packet_event : Pkt → DeviceEventKind
    capabilities_changed : DeviceEventKind
    pairing_result : PairingResult → DeviceEventKind
    battery_event : BatteryEvent → DeviceEventKind

  pub data Event : Type 0 where
    device_event : Device → DeviceEventKind → Event
    dongle_pairing_result : Bytes → PairingResult → Event
