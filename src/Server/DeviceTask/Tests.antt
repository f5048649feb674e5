-- ===== src/Server/DeviceTask/Tests.antt =====
-- A device task at concrete wake-ups, and the theorems at them. Links, senders, rotations, camera
-- models and reports are numbers.
use odyssey_desktop.Prelude.{
  ℕ, ◌≡◌, ◌≤◌, length, refl, Bool, true, false, none, some, List, [], ◌∷◌, ◌++◌, arith, Bytes,
  bytes_inst, ok, replicate,
}
use odyssey_desktop.Common.Device.{Device, Transport, EventsTransport, contains}
use odyssey_desktop.Server.Keyed.{find}
use odyssey_desktop.Server.Hub.{Hub, run}
use odyssey_desktop.Server.Hub.Refine.{find_device}
use odyssey_desktop.Server.ShotDelays.Tests.{Channel, counted}
use odyssey_desktop.Server.Service.{read_register, set_transport_mode}
use odyssey_desktop.Server.DeviceTask.State.{
  Parts, StreamKind, combined_markers, poc_markers, accel, impact, battery, ble_mode,
  impact_threshold, answered, timed_out, name_set, from_service, remove_control_device,
  remove_events_device, call, reply_byte, clear_all_streams, read_register_call, Answers, Shared,
  Task,
}
use odyssey_desktop.Server.DeviceTask.Streams.{started, is_empty}
use odyssey_desktop.Server.DeviceTask.Name.Bounds.{heapless_name_bound}
use odyssey_desktop.Server.DeviceTask.Name.{heapless_name}
use odyssey_desktop.Server.DeviceTask.Links.{Libraries}
use odyssey_desktop.Server.DeviceTask.Requests.{on_service}
use odyssey_desktop.Server.DeviceTask.Loop.{Wake, message, resume_due, OnReport, turn, loop}
use odyssey_desktop.Server.DeviceTask.Invariant.{Sound}
use odyssey_desktop.Server.DeviceTask.Told.{told}
use odyssey_desktop.Server.DeviceTask.Listed.{listed-loop}
use odyssey_desktop.Server.DeviceTask.Pauses.{pause_ends}
use odyssey_desktop.Server.DeviceTask.Unplugged.{loop_unplugged}
use odyssey_desktop.Server.DeviceTask.Replies.{replies, replies-on_service}

abbrev pub numbers : Parts
numbers = record {
  VmDevice = ℕ;
  Config = ℕ;
  Rotation = ℕ;
  Watch = Channel;
  Filters = ℕ;
  Report = ℕ;
  Screens = ℕ;
  Float = ℕ;
  Packet = ℕ;
  Sender = ℕ;
  DongleSender = ℕ;
}

abbrev pub no_vision : Libraries numbers
no_vision = record {
  watch_api = counted;
  dummy_config = 0;
  new_filters = 0;
  zero_from_event = λ v p s e. none;
  zero_from_filters = λ v p s f. some 5;
}

abbrev pub ignore : OnReport numbers
ignore = λ d o s c f r. (f, [])

abbrev pub uuid : Bytes
uuid = 1 ∷ 2 ∷ 3 ∷ 4 ∷ 5 ∷ 6 ∷ []

abbrev pub ble_device : Device
ble_device = record {
  uuid = uuid;
  transport = Transport.usb;
  capabilities = record { bits = 3 };
  firmware_version = record { major = 0; minor = 1; patch = 2 };
  events_transport = EventsTransport.bluetooth;
  events_connected = true;
  product_id = 0x5211;
  name = replicate 33 0;
}

-- Every call succeeds; the combined markers and the impacts stream.
abbrev pub starts_two : StreamKind → Bool
starts_two combined_markers = true
starts_two poc_markers = false
starts_two accel = false
starts_two impact = true
starts_two battery = false

abbrev pub fine : Answers numbers
fine = record {
  starts = starts_two;
  all_config = answered 9;
  done_call = answered tt;
  register_value = answered 77;
  config_value = answered (impact_threshold 4);
  transport_mode = answered ble_mode;
  firmware_semver = timed_out;
  name_response = answered name_set;
}

abbrev pub shared : Shared numbers
shared = record {
  device_offsets = [];
  shot_delays = record { device_shot_delays = []; shot_delay_watch = [] };
  direct_usb_handler_uuids = uuid ∷ [];
  bond_names = [];
  screen_calibrations = 0;
}

abbrev streaming : Task numbers
streaming = record {
  control_device = some 1;
  events_device = some 2;
  has_hub = true;
  device = ble_device;
  camera_models = 9;
  filters = 0;
  sensor_streams = combined_markers ∷ impact ∷ [];
  has_sensor_streams = true;
  streams_paused = false;
  streams_resume_armed = false;
  pairing_in_progress = false;
  protocol_version = record { major = 0; minor = 1; patch = 0 };
  current_shot_delay = 0;
}

abbrev read_one : Answers numbers × Wake numbers
read_one = (fine, message (some (from_service (read_register 0 1 2))))

abbrev unplug : List (Answers numbers × Wake numbers)
unplug =
    (fine, message (some remove_control_device))
    ∷ read_one
    ∷ (fine, message (some remove_events_device))
    ∷ read_one
    ∷ []

-- The streams are disabled before the register is read.
read_one_effects :
    (loop no_vision ignore shared streaming (read_one ∷ [])).effects
    ≡ call 2 clear_all_streams ∷ call 2 (read_register_call 0 1 2) ∷ reply_byte (ok 77) ∷ []
unfolding loop
read_one_effects = refl

-- The timer of the debounce starts them again.
read_then_resume :
    (loop no_vision ignore shared streaming
      (read_one ∷ (fine, resume_due) ∷ [])).task.sensor_streams
    ≡ combined_markers ∷ impact ∷ []
unfolding loop
read_then_resume = refl

-- A cable that is pulled leaves the Bluetooth link, so the task goes on, as `UsbMux`.
unplug_cable :
    (loop no_vision ignore shared streaming
      ((fine, message (some remove_control_device)) ∷ [])).ended
    ≡ false
unfolding loop
unplug_cable = refl

heapless_name_cut :
    heapless_name (0xE2 ∷ 0x82 ∷ 0xAC ∷ replicate 28 b'a' ++ 0xC3 ∷ 0xA9 ∷ [])
    ≡ 0xE2 ∷ 0x82 ∷ 0xAC ∷ replicate 28 b'a'
unfolding heapless_name
heapless_name_cut = refl

streaming-Sound : Sound streaming
unfolding contains is_empty
streaming-Sound = record {
  bits = record {
    is_byte = omega arith;
    control_bit = refl;
    events_bit = refl;
    link_connected = λ _. refl;
    dfu_wired = λ e. cc;
  };
  flagged = refl;
  linked = λ _. refl;
  paused_armed = refl;
}

abbrev hub : Hub ℕ ℕ
hub = record { device_list = (ble_device, 10) ∷ []; dongle_list = [] }

listed-loop_example :
    find_device uuid
      (run 0 hub (told (loop no_vision ignore shared streaming unplug).effects)).0.device_list
    ≡ none
unfolding loop told find
listed-loop_example =
    listed-loop no_vision ignore 0 10 hub shared streaming unplug uuid
      (record { devices = (refl, tt); dongles = tt }) refl

read_goes_on : (loop no_vision ignore shared streaming (read_one ∷ [])).ended ≡ false
unfolding loop
read_goes_on = refl

read_pauses : (loop no_vision ignore shared streaming (read_one ∷ [])).task.streams_paused ≡ true
unfolding loop
read_pauses = refl

pause_ends_example :
    let r = loop no_vision ignore shared streaming (read_one ∷ []) in
    let t' = (turn no_vision ignore fine r.shared r.task resume_due).task in
    (r.task.streams_resume_armed ≡ true)
    × (t'.streams_paused ≡ false)
    × ((t'.streams_resume_armed ≡ false) × (t'.sensor_streams ≡ combined_markers ∷ impact ∷ []))
unfolding loop started
pause_ends_example =
    pause_ends no_vision ignore shared streaming (read_one ∷ []) fine streaming-Sound read_goes_on
      read_pauses

loop_unplugged_example : (loop no_vision ignore shared streaming unplug).ended ≡ true
loop_unplugged_example = loop_unplugged no_vision ignore shared streaming unplug refl refl refl

replies-on_service_example :
    replies (on_service fine shared streaming (set_transport_mode true)).effects ≡ 1
replies-on_service_example = replies-on_service fine shared streaming (set_transport_mode true)

heapless_name_bound_example :
    (length (heapless_name (0xC3 ∷ 0xA9 ∷ [])) ≤ 32)
    × ((rest : Bytes) × (heapless_name (0xC3 ∷ 0xA9 ∷ []) ++ rest ≡ 0xC3 ∷ 0xA9 ∷ []) × (rest ≡ []))
heapless_name_bound_example = heapless_name_bound (0xC3 ∷ 0xA9 ∷ [])
