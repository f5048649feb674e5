-- ===== src/Server/Hub/Tests.antt =====
-- A hub with two devices, and the theorems at it. Senders are numbered.
use odyssey_desktop.Prelude.{
  is_some, ℕ, ◌≡◌, refl, true, none, List, [], ◌∷◌, Bytes, bytes_inst, replicate,
}
use odyssey_desktop.Common.Device.{name_bytes, Device, Transport, EventsTransport}
use odyssey_desktop.Server.Keyed.{find}
use odyssey_desktop.Server.Hub.{Hub, Message, handle, run, connect, disconnect, update_name}
use odyssey_desktop.Server.Hub.Refine.{
  IsUnique, view, spec_step, spec_run, find_device, handle_refines, run_refines,
}
use odyssey_desktop.Server.Hub.History.{last_link, listed-run}

abbrev device_of : Bytes → Device
device_of u = record {
  uuid = u;
  transport = Transport.usb;
  capabilities = record { bits = 3 };
  firmware_version = record { major = 0; minor = 1; patch = 2 };
  events_transport = EventsTransport.wired;
  events_connected = true;
  product_id = 0x5211;
  name = replicate 33 0;
}

abbrev first : Bytes
first = 1 ∷ 2 ∷ 3 ∷ 4 ∷ 5 ∷ 6 ∷ []

abbrev second : Bytes
second = 1 ∷ 2 ∷ 3 ∷ 4 ∷ 5 ∷ 7 ∷ []

abbrev pair : Hub ℕ ℕ
pair = record {
  device_list = (device_of first, 10) ∷ (device_of second, 20) ∷ [];
  dongle_list = [];
}

pair-IsUnique : IsUnique pair
unfolding find
pair-IsUnique = record { devices = (refl, (refl, tt)); dongles = tt }

abbrev history : List (Message ℕ ℕ ℕ)
history =
    disconnect (device_of first)
    ∷ update_name second (b'g' ∷ [])
    ∷ connect (device_of first) none
    ∷ []

run-history :
    (run {Ev = ℕ} 99 pair history).0.device_list
    ≡ (record (device_of second) { name = b'g' ∷ replicate 32 0 }, 20) ∷ (device_of first, 99) ∷ []
unfolding run handle name_bytes
run-history = refl

handle_refines_example :
    view (handle {Ev = ℕ} 99 pair (disconnect (device_of first))).0
    ≡ spec_step {Ev = ℕ} 99 (view pair) (disconnect (device_of first))
handle_refines_example = handle_refines 99 pair (disconnect (device_of first)) pair-IsUnique

run_refines_example :
    (view (run 99 pair history).0 ≡ spec_run 99 (view pair) history)
    × IsUnique (run 99 pair history).0
run_refines_example = run_refines 99 history pair pair-IsUnique

listed-run_example :
    is_some (find_device first (run 99 pair history).0.device_list)
    ≡ last_link first (is_some (find_device first pair.device_list)) history
listed-run_example = listed-run 99 history pair first pair-IsUnique
