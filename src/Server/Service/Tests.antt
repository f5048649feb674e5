-- ===== src/Server/Service/Tests.antt =====
-- A service with one device whose task confirms everything, and the theorems at it.
use odyssey_desktop.Prelude.{
  ℕ, ◌≡◌, refl, true, some, List, [], ◌∷◌, arith, bytes_inst, ok, replicate,
}
use odyssey_desktop.Common.Device.{Device, Transport, EventsTransport}
use odyssey_desktop.Interface.Devices.{device_to_proto}
use odyssey_desktop.Interface.Devices.RoundTrip.{
  IsDevice, renamed, device_from_proto-device_to_proto,
}
use odyssey_desktop.Server.Service.{DeviceTaskMessage, Tasks, set_device_name_rpc}
use odyssey_desktop.Server.Service.Forwards.{
  Named, Request, ask_read_config, sent, addressed, target, message, sent-addressed,
  set_device_name_rpc_lem,
}

abbrev only : Device
only = record {
  uuid = 1 ∷ 2 ∷ 3 ∷ 4 ∷ 5 ∷ 6 ∷ [];
  transport = Transport.usb;
  capabilities = record { bits = 1 };
  firmware_version = record { major = 0; minor = 1; patch = 2 };
  events_transport = EventsTransport.wired;
  events_connected = true;
  product_id = 0x5211;
  name = replicate 33 0;
}

only-IsDevice : IsDevice only
only-IsDevice = record {
  uuid = refl;
  capabilities = omega arith;
  product_id = omega arith;
  major = omega arith;
  minor = omega arith;
  patch = omega arith;
}

abbrev agreeable : Tasks ℕ DeviceTaskMessage
agreeable = record {
  try_send = λ s m. true;
  send = λ s m. true;
  reply_unit = λ s m. some (ok tt);
  reply_byte = λ s m. some (ok 1);
  reply_mode = λ s m. some (ok true);
}

abbrev listed : List (Device × ℕ)
listed = (only, 7) ∷ []

abbrev read_request : Request
read_request = ask_read_config (some (device_to_proto only)) 257

sent-addressed_example :
    sent agreeable listed read_request
    ≡ addressed agreeable listed (target read_request) (message read_request)
sent-addressed_example = sent-addressed agreeable listed read_request

set_device_name_rpc_lem_example :
    Named agreeable listed
      (renamed only)
      (b'g' ∷ [])
      only.uuid
      (set_device_name_rpc agreeable listed (some (device_to_proto only)) (b'g' ∷ []))
set_device_name_rpc_lem_example =
    set_device_name_rpc_lem agreeable listed (device_to_proto only) (renamed only) (b'g' ∷ [])
      only.uuid (device_from_proto-device_to_proto only only-IsDevice)
