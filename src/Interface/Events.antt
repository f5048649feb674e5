-- ===== src/Interface/Events.antt =====
-- odyssey_hub_server_interface/src/lib.rs, the events. `to_allocvec` and `from_bytes` stand for the
-- crate postcard at the packet type: `none` is an error.
pub mod RoundTrip
pub mod Tests
use odyssey_desktop.Prelude.{
  ℕ, ◌%◌, ◌^◌, Option, none, some, Bytes, min, length, replicate, Outcome, done, ◌>>=◌, unwrap,
  Result, ok, err,
}
use odyssey_desktop.Common.Device.{copy_prefix}
use odyssey_desktop.Common.Events.{
  Event, DeviceEventKind, TrackingEvent, AccelerometerEvent, PairingResult, Pose,
}
use odyssey_desktop.Interface.Proto
use odyssey_desktop.Interface.Devices.{
  device_to_proto, device_from_proto, matrix3x1_to_proto, matrix3x1_from_proto, matrix3x3_to_proto,
  matrix3x3_from_proto, vector2_to_proto, vector2_from_proto, vector3_to_proto, vector3_from_proto,
}

-- The address of a pairing result, cut or padded to six bytes.
pub address_of : Bytes → Bytes
address_of bytes = let len = min (length bytes) 6 in copy_prefix (replicate 6 0) bytes len

module _ {F Pkt : Type 0} (to_allocvec : Pkt → Option Bytes) where
  pub kind_to_proto : DeviceEventKind F Pkt → Outcome (Proto.DeviceEventOneof F)
  kind_to_proto (DeviceEventKind.accelerometer_event e) = done (
      Proto.DeviceEventOneof.accelerometer (record {
        timestamp = e.timestamp;
        acceleration = some (vector3_to_proto e.accel);
        angular_velocity = some (vector3_to_proto e.gyro);
        euler_angles = some (vector3_to_proto e.euler_angles);
      }))
  kind_to_proto (DeviceEventKind.tracking_event e) = done (
      Proto.DeviceEventOneof.tracking (record {
        timestamp = e.timestamp;
        aimpoint = some (vector2_to_proto e.aimpoint);
        pose = some (record {
          rotation = some (matrix3x3_to_proto e.pose.rotation);
          translation = some (matrix3x1_to_proto e.pose.translation);
        });
        distance = e.distance;
        screen_id = e.screen_id;
      }))
  kind_to_proto (DeviceEventKind.impact_event e) =
      done (Proto.DeviceEventOneof.impact (record { timestamp = e.timestamp }))
  kind_to_proto (DeviceEventKind.packet_event pkt) = do
    bytes ← unwrap (to_allocvec pkt)
    done (Proto.DeviceEventOneof.packet (record { bytes = bytes }))
  kind_to_proto (DeviceEventKind.zero_result success) =
      done (Proto.DeviceEventOneof.zero_result (record { success = success }))
  kind_to_proto (DeviceEventKind.save_zero_result success) =
      done (Proto.DeviceEventOneof.save_zero_result (record { success = success }))
  kind_to_proto DeviceEventKind.capabilities_changed =
      done Proto.DeviceEventOneof.capabilities_changed
  kind_to_proto (DeviceEventKind.pairing_result e) = done (
      Proto.DeviceEventOneof.pairing_result (record {
        success = e.success;
        paired_address = e.paired_address;
        error = e.error;
        paired_name = e.paired_name;
      }))
  kind_to_proto (DeviceEventKind.battery_event e) =
      done (Proto.DeviceEventOneof.battery (record { percent = e.percent; charging = e.charging }))

  pub event_to_proto : Event F Pkt → Outcome (Proto.Event F)
  unfolding kind_to_proto
  event_to_proto (Event.device_event device kind) = do
    oneof ← kind_to_proto kind
    done (record {
      event_oneof = some (
          Proto.EventOneof.device
            (record { device = some (device_to_proto device); device_event_oneof = some oneof }));
    })
  event_to_proto (Event.dongle_pairing_result dongle_id e) = done (record {
    event_oneof = some (
        Proto.EventOneof.dongle_pairing_result (record {
          dongle_id = dongle_id;
          success = e.success;
          paired_address = e.paired_address;
          error = e.error;
          paired_name = e.paired_name;
        }));
  })

pub tracking_from_proto : {F : Type 0} → Proto.TrackingEvent F → Outcome (TrackingEvent F)
tracking_from_proto e = do
  aimpoint ← unwrap e.aimpoint
  p ← unwrap e.pose
  rotation ← unwrap (Proto.Pose.rotation p)
  translation ← unwrap (Proto.Pose.translation p)
  done (record {
    timestamp = e.timestamp;
    aimpoint = vector2_from_proto aimpoint;
    pose = record {
      rotation = matrix3x3_from_proto rotation;
      translation = matrix3x1_from_proto translation;
    };
    distance = e.distance;
    screen_id = e.screen_id;
  })

module _ {F Pkt : Type 0} (from_bytes : Bytes → Option Pkt) where
  pub kind_from_proto : Proto.DeviceEventOneof F → Outcome (DeviceEventKind F Pkt)
  unfolding tracking_from_proto address_of
  kind_from_proto (Proto.DeviceEventOneof.accelerometer e) = do
    accel ← unwrap e.acceleration
    gyro ← unwrap e.angular_velocity
    euler_angles ← unwrap e.euler_angles
    done (
        DeviceEventKind.accelerometer_event (record {
          timestamp = e.timestamp;
          accel = vector3_from_proto accel;
          gyro = vector3_from_proto gyro;
          euler_angles = vector3_from_proto euler_angles;
        }))
  kind_from_proto (Proto.DeviceEventOneof.tracking e) = do
    t ← tracking_from_proto e
    done (DeviceEventKind.tracking_event t)
  kind_from_proto (Proto.DeviceEventOneof.impact e) =
      done (DeviceEventKind.impact_event (record { timestamp = e.timestamp }))
  kind_from_proto (Proto.DeviceEventOneof.packet e) = do
    pkt ← unwrap (from_bytes e.bytes)
    done (DeviceEventKind.packet_event pkt)
  kind_from_proto (Proto.DeviceEventOneof.zero_result e) =
      done (DeviceEventKind.zero_result e.success)
  kind_from_proto (Proto.DeviceEventOneof.save_zero_result e) =
      done (DeviceEventKind.save_zero_result e.success)
  kind_from_proto Proto.DeviceEventOneof.capabilities_changed =
      done DeviceEventKind.capabilities_changed
  kind_from_proto (Proto.DeviceEventOneof.pairing_result e) = done (
      DeviceEventKind.pairing_result (record {
        success = e.success;
        paired_address = address_of e.paired_address;
        error = e.error;
        paired_name = e.paired_name;
      }))
  kind_from_proto (Proto.DeviceEventOneof.battery e) = done (
      DeviceEventKind.battery_event (record { percent = e.percent % 2 ^ 8; charging = e.charging }))

  -- The body of `try_from` for a device event, after the `?` on the device and on the kind.
  device_event_from_proto : Proto.DeviceEvent F → Outcome (Result (Event F Pkt) (Unit {0}))
  unfolding kind_from_proto
  device_event_from_proto d = elim (Proto.DeviceEvent.device d) [
    | none ↦ done (err tt)
    | some dev ↦ device_from_proto dev >>= λ device. elim (Proto.DeviceEvent.device_event_oneof d) [
      | none ↦ done (err tt)
      | some oneof ↦ kind_from_proto oneof >>= λ kind. done (ok (Event.device_event device kind))
    ]
  ]

  pub event_from_proto : Proto.Event F → Outcome (Result (Event F Pkt) (Unit {0}))
  unfolding device_event_from_proto address_of
  event_from_proto event = elim (Proto.Event.event_oneof event) [
    | none ↦ done (err tt)
    | some (Proto.EventOneof.dongle_pairing_result e) ↦ done (
        ok (
          Event.dongle_pairing_result e.dongle_id (record {
            success = e.success;
            paired_address = address_of e.paired_address;
            error = e.error;
            paired_name = e.paired_name;
          })))
    | some (Proto.EventOneof.device d) ↦ device_event_from_proto d
  ]
