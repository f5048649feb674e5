-- ===== src/Server/DeviceTask/State.antt =====
-- The state of a device task, what it is told, what it does, and what its device answers.
use odyssey_desktop.Prelude.{ℕ, Bool, Option, List, Bytes, Result}
use odyssey_desktop.Prelude.Assoc.{Map}
use odyssey_desktop.Common.Device.{Device, Version}
use odyssey_desktop.Common.Events.{Vector2, Vector3, TrackingEvent, Event}
use odyssey_desktop.Server.Hub.{Message}
use odyssey_desktop.Server.ShotDelays.{ShotDelays}
use odyssey_desktop.Server.Service.{DeviceTaskMessage}

-- The types of other crates: the links to a device, its camera models, rotations, watch channels,
-- the filters, the reports, the screens, `f32` and packets; and the senders of the tasks.
pub record Parts : Type 1 where
  pub VmDevice : Type 0
  pub Config : Type 0
  pub Rotation : Type 0
  pub Watch : Type 0
  pub Filters : Type 0
  pub Report : Type 0
  pub Screens : Type 0
  pub Float : Type 0
  pub Packet : Type 0
  pub Sender : Type 0
  pub DongleSender : Type 0

-- `DeviceStreamEvent`'s kinds of stream.
pub data StreamKind : Type 0 where
  combined_markers poc_markers accel impact battery : StreamKind

pub data TransportMode : Type 0 where
  usb_mode ble_mode : TransportMode

-- `GeneralConfig`, as far as it is asked for; `other_config` is every other setting.
pub data GeneralConfig : Type 0 where
  impact_threshold suppress_ms : ℕ → GeneralConfig
  other_config : GeneralConfig

-- The texts of the errors that are replied.
pub data TaskError : Type 0 where
  events_not_connected events_not_available no_device no_control timed_out_error : TaskError
  unexpected_response : TaskError
  unknown_config_kind : ℕ → TaskError
  device_error : Bytes → TaskError

-- `tokio::time::timeout` around a call of a device.
pub data Reply (A : Type 0) : Type 0 where
  answered : A → Reply A
  failed : Bytes → Reply A
  timed_out : Reply A

-- The response to the packet `SetDeviceName`.
pub data NameResponse : Type 0 where
  name_set other_response : NameResponse

pub record Isometry3 (F Q : Type 0) : Type 0 where
  pub translation : Vector3 F
  pub rotation : Q

module _ (P : Parts) where
  -- `DeviceTaskMessage`, with the messages that the service sends, without the reply channels.
  pub data Command : Type 0 where
    from_service : DeviceTaskMessage → Command
    set_shot_delay : ℕ → Command
    zero_to : Vector3 P.Float → Vector2 P.Float → Option (TrackingEvent P.Float) → Command
    add_events_device : P.VmDevice → Version → Command
    add_control_device : P.VmDevice → Command
    remove_control_device remove_events_device : Command

  -- The calls of a link.
  pub data Call : Type 0 where
    start_stream : StreamKind → Call
    clear_all_streams read_all_config read_all_config_ctrl read_version get_transport_mode : Call
    write_vendor_call : ℕ → Bytes → Call
    read_register_call : ℕ → ℕ → ℕ → Call
    write_register_call : ℕ → ℕ → ℕ → ℕ → Call
    read_config_call read_config_ctrl_call : GeneralConfig → Call
    write_config_call write_config_ctrl_call : GeneralConfig → Call
    flash_settings_call flash_settings_ctrl_call : Call
    start_pairing_call : ℕ → Call
    wait_pairing_event cancel_pairing_call clear_bond_call reboot : Call
    set_transport_mode_call : Bool → Call
    set_name_call request_name_call : Bytes → Call

  pub data Effect : Type 0 where
    call : P.VmDevice → Call → Effect
    update_bond_name : Bytes → Bytes → Effect
    emit : Event P.Float P.Packet → Effect
    tell : Message P.Sender P.DongleSender (Event P.Float P.Packet) → Effect
    reply_unit : Result (Unit {0}) TaskError → Effect
    reply_byte : Result ℕ TaskError → Effect
    reply_mode : Result Bool TaskError → Effect
    save_offsets : Map Bytes (Isometry3 P.Float P.Rotation) → Effect

  -- What the links answer within one turn of the loop.
  pub record Answers : Type 0 where
    pub starts : StreamKind → Bool
    pub all_config : Reply P.Config
    pub done_call : Reply (Unit {0})
    pub register_value : Reply ℕ
    pub config_value : Reply GeneralConfig
    pub transport_mode : Reply TransportMode
    pub firmware_semver : Reply Version
    pub name_response : Reply NameResponse

  -- What the task shares with the others.
  pub record Shared : Type 0 where
    pub device_offsets : Map Bytes (Isometry3 P.Float P.Rotation)
    pub shot_delays : ShotDelays P.Watch
    pub direct_usb_handler_uuids : List Bytes
    pub bond_names : Map Bytes Bytes
    pub screen_calibrations : P.Screens

  pub record Task : Type 0 where
    pub control_device : Option P.VmDevice
    pub events_device : Option P.VmDevice
    pub has_hub : Bool
    pub device : Device
    pub camera_models : P.Config
    pub filters : P.Filters
    pub sensor_streams : List StreamKind
    pub has_sensor_streams : Bool
    pub streams_paused : Bool
    pub streams_resume_armed : Bool
    -- It is never read; the task that waits for the pairing resets it, which is left out here.
    pub pairing_in_progress : Bool
    pub protocol_version : Version
    pub current_shot_delay : ℕ

  -- One turn of the loop: the task and what it shares, what it does in order, and whether it breaks.
  pub record Turn : Type 0 where
    pub task : Task
    pub shared : Shared
    pub effects : List Effect
    pub ended : Bool
