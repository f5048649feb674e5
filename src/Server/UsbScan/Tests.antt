-- ===== src/Server/UsbScan/Tests.antt =====
-- Scans at concrete devices, and the theorems at them.
use odyssey_desktop.Prelude.{
  ℕ, ◌≡◌, ◌≤◌, refl, true, false, Option, none, some, [], ◌∷◌, Bytes, bytes_inst, is_some, ◌==◌,
  if◌then◌else◌, u8_from_hex, leb, ltb, ◌&&◌,
}
use odyssey_desktop.Prelude.Assoc.{lookup}
use odyssey_desktop.Server.Hub.{Hub, run}
use odyssey_desktop.Server.Hub.Refine.{find_device}
use odyssey_desktop.Server.Firmware.Usb.{serial_matches}
use odyssey_desktop.Server.DeviceTask.State.{usb_mode, remove_control_device}
use odyssey_desktop.Server.DeviceTask.Loop.{run_task}
use odyssey_desktop.Server.DeviceTask.Invariant.{Sound}
use odyssey_desktop.Server.DeviceTask.Tests.{numbers, no_vision, ignore, fine, shared, uuid}
use odyssey_desktop.Server.UsbScan.Serial.{uuid_from_usb_serial}
use odyssey_desktop.Server.UsbScan.Probe.{
  ProductId, mux, ats_lite, UuidAnswer, read_as, failed_read, read_uuid_with_retry, Probe, Seen,
  start_of_probe,
}
use odyssey_desktop.Server.UsbScan.Scan.{Manager, Outside, command}
use odyssey_desktop.Server.UsbScan.Reconcile.{scan}
use odyssey_desktop.Server.UsbScan.Identity.{
  read_uuid_with_retry_bound, serial_matches-uuid_from_usb_serial, uuid_of,
}
use odyssey_desktop.Server.UsbScan.Spawned.{run_task-Sound}
use odyssey_desktop.Server.UsbScan.Announced.{announced}
use odyssey_desktop.Server.UsbScan.Tasks.{Opens}
use odyssey_desktop.Server.UsbScan.Relisted.{scan_unlists}

-- The UUID is read at the second attempt.
abbrev second_time : ℕ → UuidAnswer
second_time n = if n == 2 then read_as uuid else failed_read

-- It is never read.
abbrev failing : ℕ → UuidAnswer
failing n = failed_read

abbrev opened : Probe numbers
opened = record {
  link = 7;
  uuid_answer = second_time;
  version = none;
  transport_mode = some usb_mode;
  events_version = none;
}

-- `0x5210` is the dongle, everything else a Lite.
abbrev products : ℕ → Option ProductId
products pid = if pid == 0x5210 then some mux else some ats_lite

abbrev world : Outside numbers
world = record {
  product_of = products;
  is_finished = λ tx. false;
  hub_is_finished = λ i. false;
  channel = λ n. n;
}

abbrev port : Bytes
port = b'1' ∷ []

abbrev lite : Seen numbers
lite = record {
  vendor_id = 0x1915;
  product_id = 0x5211;
  id = port;
  serial_number = none;
  product_string = none;
  has_dfu_iface = true;
  probe = some opened;
  hub_connects = false;
  hub_subscribes = false;
}

abbrev empty : Manager numbers
empty = record {
  device_handles = [];
  direct_usb_handler_uuids = [];
  hub_managers = [];
  direct_usb_id_to_uuid = [];
  dfu_device_id_to_info = [];
  next_channel = 10;
}

-- A second pass over the same device spawns no second task.
scan_twice : (scan world (some (lite ∷ [])) (scan world (some (lite ∷ [])) empty).0).1 ≡ []
unfolding scan
scan_twice = refl

-- It is unplugged.
scan_unplug :
    (scan world (some []) (scan world (some (lite ∷ [])) empty).0).1
    ≡ command uuid remove_control_device ∷ []
unfolding scan
scan_unplug = refl

serial_uuid :
    uuid_from_usb_serial (
      some (
        b'0' ∷ b'1' ∷ b':' ∷ b'0' ∷ b'2' ∷ b'0' ∷ b'3' ∷ b'0' ∷ b'4' ∷ b'0' ∷ b'5' ∷ b'F' ∷ b'f'
        ∷ []))
    ≡ some (1 ∷ 2 ∷ 3 ∷ 4 ∷ 5 ∷ 255 ∷ [])
unfolding uuid_from_usb_serial u8_from_hex
serial_uuid = refl

serial_matches-uuid_from_usb_serial_example :
    serial_matches (1 ∷ 2 ∷ 3 ∷ 4 ∷ 5 ∷ 255 ∷ []) (
      b'0' ∷ b'1' ∷ b':' ∷ b'0' ∷ b'2' ∷ b'0' ∷ b'3' ∷ b'0' ∷ b'4' ∷ b'0' ∷ b'5' ∷ b'F' ∷ b'f' ∷ [])
    ≡ true
serial_matches-uuid_from_usb_serial_example =
    serial_matches-uuid_from_usb_serial
      (b'0' ∷ b'1' ∷ b':' ∷ b'0' ∷ b'2' ∷ b'0' ∷ b'3' ∷ b'0' ∷ b'4' ∷ b'0' ∷ b'5' ∷ b'F' ∷ b'f'
        ∷ [])
      (1 ∷ 2 ∷ 3 ∷ 4 ∷ 5 ∷ 255 ∷ []) serial_uuid

read_uuid_with_retry_bound_example :
    let (u, asked) = read_uuid_with_retry ats_lite second_time in
    (1 ≤ asked)
    × (asked ≤ 3)
    × ((u ≡ some uuid)
        × ((if leb 1 1 && ltb 1 asked then uuid_of (second_time 1) else none) ≡ none))
unfolding read_uuid_with_retry
read_uuid_with_retry_bound_example = read_uuid_with_retry_bound ats_lite second_time 1

abbrev known : Manager numbers
known = record empty {
  device_handles = (uuid, 10) ∷ [];
  direct_usb_handler_uuids = uuid ∷ [];
  direct_usb_id_to_uuid = (port, uuid) ∷ [];
}

spawned_goes_on :
    (run_task no_vision ignore fine shared (start_of_probe lite opened uuid) []).ended ≡ false
unfolding run_task start_of_probe
spawned_goes_on = refl

run_task-Sound_example :
    Sound (run_task no_vision ignore fine shared (start_of_probe lite opened uuid) []).task
run_task-Sound_example =
    run_task-Sound no_vision ignore lite opened uuid fine shared [] spawned_goes_on

abbrev surfaced : Manager numbers
surfaced = record empty { dfu_device_id_to_info = (b'9' ∷ [], (uuid, 0x5211)) ∷ [] }

abbrev nothing_listed : Hub ℕ ℕ
nothing_listed = record { device_list = []; dongle_list = [] }

-- A second device, with the id of the bootloader, is opened too.
abbrev beside : Seen numbers
beside = record lite { id = b'9' ∷ []; probe = some (record opened { uuid_answer = failing }) }

lite-Opens : Opens world uuid lite
unfolding read_uuid_with_retry
lite-Opens = record {
  product = ats_lite;
  probe = opened;
  ats = refl;
  known = refl;
  direct = refl;
  opened = refl;
  answers = refl;
}

scan_unlists_example :
    (is_some (lookup uuid (scan world (some (beside ∷ lite ∷ [])) surfaced).0.device_handles)
      ≡ true)
    × (is_some (
          find_device uuid
            (run 0 nothing_listed
              (announced (scan world (some (beside ∷ lite ∷ [])) surfaced).1)).0.device_list)
        ≡ false)
unfolding lookup
scan_unlists_example =
    scan_unlists world (beside ∷ []) [] lite surfaced (b'9' ∷ []) uuid 0x5211 0 nothing_listed
      lite-Opens refl refl (record { devices = tt; dongles = tt })
