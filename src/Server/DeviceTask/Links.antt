-- ===== src/Server/DeviceTask/Links.antt =====
-- What a device task does as links come and go, and on the messages about shot delays and zeroing
-- that need the vision libraries.
use odyssey_desktop.Prelude.{
  ℕ, Bool, true, false, ◌&&◌, Option, none, some, List, [], ◌∷◌, ◌++◌, Bytes, bytes_inst, bytes_eq,
  if◌then◌else◌, is_some,
}
use odyssey_desktop.Prelude.Assoc.{insert}
use odyssey_desktop.Common.Device as Dev
use odyssey_desktop.Common.Device.{
  Device, Version, Transport, EventsTransport, control, events, dfu,
}
use odyssey_desktop.Common.Events.{
  Vector2, Vector3, TrackingEvent, capabilities_changed, zero_result,
}
use odyssey_desktop.Server.Hub.{update_device}
use odyssey_desktop.Server.ShotDelays.{WatchApi, set_shot_delay_live}
use odyssey_desktop.Server.DeviceTask.State.{
  Parts, TransportMode, usb_mode, ble_mode, Reply, answered, failed, timed_out, Effect, call, tell,
  Answers, Shared, Task, Turn, read_all_config, read_version, get_transport_mode,
}
use odyssey_desktop.Server.DeviceTask.Streams.{restart, version_gt}
use odyssey_desktop.Server.DeviceTask.Requests.{next, break, emit_kind}

-- The Bluetooth and the dongle's link share the name of the transport `UsbMux`.
unfoldable pub is_usb_mux : Transport → Bool
is_usb_mux Transport.usb = false
is_usb_mux Transport.usb_mux = true
is_usb_mux Transport.udp_mux = false

unfoldable pub is_bluetooth : EventsTransport → Bool
is_bluetooth EventsTransport.wired = false
is_bluetooth EventsTransport.bluetooth = true

-- `HashSet::remove`
unfoldable pub forget : Bytes → List Bytes → List Bytes
forget u [] = []
forget u (v ∷ vs) = if bytes_eq v u then forget u vs else v ∷ forget u vs

abbrev pub with_capability : ℕ → Device → Device
with_capability flag d = record d { capabilities = Dev.insert d.capabilities flag }

abbrev pub without_capability : ℕ → Device → Device
without_capability flag d = record d { capabilities = Dev.remove d.capabilities flag }

-- The transport mode that a control link reports, taken over into the device.
unfoldable pub apply_mode : Bool → Reply TransportMode → Device → Device
apply_mode has_events (answered usb_mode) d =
    with_capability events
      (record d { events_transport = EventsTransport.wired; events_connected = true })
apply_mode true (answered ble_mode) d = record d { events_transport = EventsTransport.bluetooth }
apply_mode false (answered ble_mode) d =
    without_capability events
      (record d { events_transport = EventsTransport.bluetooth; events_connected = false })
apply_mode has_events (failed e) d = d
apply_mode has_events timed_out d = d

-- The firmware version that a control link reports.
unfoldable pub apply_version : Reply Version → Device → Device
apply_version (answered v) d = record d { firmware_version = v }
apply_version (failed e) d = d
apply_version timed_out d = d

-- The camera models that are read replace those in use.
unfoldable pub apply_config : {C : Type 0} → Reply C → C → C
apply_config (answered c) old = c
apply_config (failed e) old = old
apply_config timed_out old = old

module _ {P : Parts} where
  -- `UpdateDevice` for the list, `CapabilitiesChanged` for the clients.
  abbrev pub tell_update : Device → Effect P
  tell_update d = tell (update_device d)

  unfoldable pub on_add_events : Answers P → Shared P → Task P → P.VmDevice → Version → Turn P
  unfolding version_gt restart apply_config
  on_add_events a sh t dev ble_proto_version =
      let t1 = record t {
        protocol_version =
            if version_gt ble_proto_version t.protocol_version
            then ble_proto_version
            else t.protocol_version;
      } in
      if t.has_sensor_streams
      then next sh t1 []
      else (let (t2, out) = restart a dev (record t1 { events_device = some dev }) in
          let t3 = record t2 {
            camera_models = apply_config a.all_config t.camera_models;
            device = record (with_capability events t.device) { events_connected = true };
          } in
          next sh t3 (
            out
            ++ call dev read_all_config
              ∷ emit_kind t3 capabilities_changed
              ∷ tell_update t3.device
              ∷ []))

  unfoldable pub on_add_control : Answers P → Shared P → Task P → P.VmDevice → Turn P
  unfolding apply_version apply_mode
  on_add_control a sh t dev =
      let d1 = apply_version a.firmware_semver t.device in
      let d2 = apply_mode (is_some t.events_device) a.transport_mode d1 in
      let d3 = record (with_capability control d2) { transport = Transport.usb } in
      let t' = record t { control_device = some dev; device = d3 } in
      next sh t' (
        call dev read_version
        ∷ call dev get_transport_mode
        ∷ tell_update d3
        ∷ emit_kind t' capabilities_changed
        ∷ [])

  -- The events link is the dongle's, so it stays when the cable is gone.
  unfoldable pub has_independent_ble_events : Task P → Bool
  unfolding is_bluetooth
  has_independent_ble_events t =
      is_some t.events_device
      && (is_bluetooth t.device.events_transport && t.device.events_connected)

  abbrev pub without_control : Task P → Task P
  without_control t = record t {
    control_device = none;
    device = without_capability dfu (without_capability control t.device);
  }

  unfoldable pub on_remove_control : Shared P → Task P → Turn P
  unfolding has_independent_ble_events forget
  on_remove_control sh t =
      let t1 = without_control t in
      let d1 = t1.device in
      if has_independent_ble_events t1
      then (let t2 = record t1 { device = record d1 { transport = Transport.usb_mux } } in
          next (record sh { direct_usb_handler_uuids = forget d1.uuid sh.direct_usb_handler_uuids })
            t2 (tell_update t2.device ∷ emit_kind t2 capabilities_changed ∷ []))
      else break sh (record t1 { events_device = none; sensor_streams = [] }) []

  unfoldable pub on_remove_events : Shared P → Task P → Turn P
  unfolding is_usb_mux
  on_remove_events sh t =
      let d1 = record (without_capability events t.device) { events_connected = false } in
      let t1 = record t {
        events_device = none;
        sensor_streams = [];
        has_sensor_streams = false;
        device = d1;
      } in
      elim t.control_device [
        | some dev ↦
            let t2 = record t1 {
              device = record d1 {
                transport = if is_usb_mux d1.transport then Transport.usb else d1.transport;
              };
            } in
            next sh t2 (tell_update t2.device ∷ emit_kind t2 capabilities_changed ∷ [])
        | none ↦ break sh t1 []
      ]

-- The watch channels, and the vision libraries: the rotation that lets `translation` aim at
-- `point`, from a tracking event or from the filters; the camera models of a device whose own are
-- not read; fresh filters.
pub record Libraries (P : Parts) : Type 0 where
  pub watch_api : WatchApi P.Watch
  pub dummy_config : P.Config
  pub new_filters : P.Filters
  pub zero_from_event :
      Vector3 P.Float → Vector2 P.Float → P.Screens → TrackingEvent P.Float → Option P.Rotation
  pub zero_from_filters :
      Vector3 P.Float → Vector2 P.Float → P.Screens → P.Filters → Option P.Rotation

module _ {P : Parts} (lib : Libraries P) where
  unfoldable pub on_set_shot_delay : Shared P → Task P → ℕ → Turn P
  on_set_shot_delay sh t ms =
      next
        (record sh {
          shot_delays = set_shot_delay_live lib.watch_api sh.shot_delays t.device.uuid ms;
        })
        t []

  unfoldable pub on_zero :
      Shared P
      → Task P
      → Vector3 P.Float
      → Vector2 P.Float
      → Option (TrackingEvent P.Float)
      → Turn P
  on_zero sh t trans point tracking_event =
      let quat : Option P.Rotation = elim tracking_event [
        | some te ↦ lib.zero_from_event trans point sh.screen_calibrations te
        | none ↦ lib.zero_from_filters trans point sh.screen_calibrations t.filters
      ] in
      elim quat [
        | some q ↦
            next
              (record sh {
                device_offsets =
                    insert t.device.uuid (record { translation = trans; rotation = q })
                      sh.device_offsets;
              })
              t (emit_kind t (zero_result true) ∷ [])
        | none ↦ next sh t (emit_kind t (zero_result false) ∷ [])
      ]
