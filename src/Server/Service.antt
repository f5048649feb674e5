-- ===== src/Server/Service.antt =====
-- odyssey_hub_server/src/server.rs, the RPCs that are handed to a device task or a dongle task. What
-- the tasks do with a message is a parameter: whether their channel takes it, and their reply, which
-- is `none` if they drop it.
pub mod Forwards
pub mod Tests
use odyssey_desktop.Prelude.{
  ℕ, ◌%◌, ◌^◌, Bool, if◌then◌else◌, Option, none, some, List, [], ◌∷◌, Bytes, Outcome, done, ◌>>=◌,
  Result, ok, err,
}
use odyssey_desktop.Common.Device.{Device, name_bytes}
use odyssey_desktop.Interface.Proto
use odyssey_desktop.Interface.Devices.{device_from_proto}
use odyssey_desktop.Server.Keyed.{find, modify}
use odyssey_desktop.Server.Hub.{DongleInfo, device_key, dongle_key}

-- `DeviceTaskMessage`, as far as the service sends it, without the reply channels.
pub data DeviceTaskMessage : Type 0 where
  reset_zero save_zero clear_zero : DeviceTaskMessage
  write_vendor : ℕ → Bytes → DeviceTaskMessage
  read_register : ℕ → ℕ → ℕ → DeviceTaskMessage
  write_register : ℕ → ℕ → ℕ → ℕ → DeviceTaskMessage
  read_config : ℕ → DeviceTaskMessage
  write_config : ℕ → ℕ → DeviceTaskMessage
  flash_settings cancel_pairing clear_bond : DeviceTaskMessage
  start_pairing : ℕ → DeviceTaskMessage
  set_transport_mode : Bool → DeviceTaskMessage
  set_device_name : Bytes → DeviceTaskMessage

pub data DongleTaskMessage : Type 0 where
  start_dongle_pairing : ℕ → DongleTaskMessage
  cancel_dongle_pairing clear_dongle_bonds : DongleTaskMessage

-- The statuses that are returned; `failed` is the internal error of a task's own message.
pub data Status : Type 0 where
  device_missing not_found unavailable dropped_reply : Status
  failed : Bytes → Status

pub record Tasks (S M : Type 0) : Type 0 where
  pub try_send : S → M → Bool
  pub send : S → M → Bool
  pub reply_unit : S → M → Option (Result (Unit {0}) Bytes)
  pub reply_byte : S → M → Option (Result ℕ Bytes)
  pub reply_mode : S → M → Option (Result Bool Bytes)

-- What an RPC does: it may panic, and gives a reply and the messages that it tried to send.
abbrev pub Rpc : Type 0 → Type 0 → Type 0 → Type 0
Rpc S M A = Outcome (Result A Status × List (S × M))

-- `match reply_rx.await`
pub reply_status : {A : Type 0} → Option (Result A Bytes) → Result A Status
reply_status none = err dropped_reply
reply_status (some (ok a)) = ok a
reply_status (some (err e)) = err (failed e)

module _ {S M : Type 0} (tasks : Tasks S M) where
  -- The sender of a task is used with `try_send`.
  pub post : Option S → M → Result (Unit {0}) Status × List (S × M)
  post none m = (err not_found, [])
  post (some tx) m = (if tasks.try_send tx m then ok tt else err unavailable, (tx, m) ∷ [])

  -- It is used with `send`, and the reply is awaited.
  pub ask :
      {A : Type 0}
      → (S → M → Option (Result A Bytes))
      → Option S
      → M
      → Result A Status × List (S × M)
  unfolding reply_status
  ask reply none m = (err not_found, [])
  ask reply (some tx) m =
      (if tasks.send tx m then reply_status (reply tx m) else err unavailable, (tx, m) ∷ [])

module _ {S : Type 0} (tasks : Tasks S DeviceTaskMessage) (device_list : List (Device × S)) where
  sender_of : Device → Option S
  unfolding find
  sender_of d = elim (find device_key d.uuid device_list) [ none ↦ none | some e ↦ some e.1 ]

  -- The device of a request, converted.
  on_device :
      {A : Type 0}
      → Option Proto.Device
      → (Device → Result A Status × List (S × DeviceTaskMessage))
      → Rpc S DeviceTaskMessage A
  on_device none k = done (err device_missing, [])
  on_device (some p) k = device_from_proto p >>= λ d. done (k d)

  pub write_vendor_rpc : Option Proto.Device → ℕ → Bytes → Rpc S DeviceTaskMessage (Unit {0})
  unfolding on_device post sender_of
  write_vendor_rpc device tag data_bytes =
      on_device device (λ dev. post tasks (sender_of dev) (write_vendor (tag % 2 ^ 8) data_bytes))

  pub read_register_rpc : Option Proto.Device → ℕ → ℕ → ℕ → Rpc S DeviceTaskMessage ℕ
  unfolding on_device ask sender_of
  read_register_rpc device port bank address = on_device device (λ dev.
      ask tasks tasks.reply_byte (sender_of dev)
        (read_register (port % 2 ^ 8) (bank % 2 ^ 8) (address % 2 ^ 8)))

  pub write_register_rpc : Option Proto.Device → ℕ → ℕ → ℕ → ℕ → Rpc S DeviceTaskMessage (Unit {0})
  unfolding on_device ask sender_of
  write_register_rpc device port bank address value = on_device device (λ dev.
      ask tasks tasks.reply_unit (sender_of dev)
        (write_register (port % 2 ^ 8) (bank % 2 ^ 8) (address % 2 ^ 8) (value % 2 ^ 8)))

  pub read_config_rpc : Option Proto.Device → ℕ → Rpc S DeviceTaskMessage ℕ
  unfolding on_device ask sender_of
  read_config_rpc device kind =
      on_device device
        (λ dev. ask tasks tasks.reply_byte (sender_of dev) (read_config (kind % 2 ^ 8)))

  pub write_config_rpc : Option Proto.Device → ℕ → ℕ → Rpc S DeviceTaskMessage (Unit {0})
  unfolding on_device ask sender_of
  write_config_rpc device kind value = on_device device (λ dev.
      ask tasks tasks.reply_unit (sender_of dev) (write_config (kind % 2 ^ 8) (value % 2 ^ 8)))

  pub flash_settings_rpc : Option Proto.Device → Rpc S DeviceTaskMessage (Unit {0})
  unfolding on_device ask sender_of
  flash_settings_rpc device =
      on_device device (λ dev. ask tasks tasks.reply_unit (sender_of dev) flash_settings)

  pub start_pairing_rpc : Option Proto.Device → ℕ → Rpc S DeviceTaskMessage (Unit {0})
  unfolding on_device ask sender_of
  start_pairing_rpc device timeout_ms =
      on_device device
        (λ dev. ask tasks tasks.reply_unit (sender_of dev) (start_pairing timeout_ms))

  pub cancel_pairing_rpc : Option Proto.Device → Rpc S DeviceTaskMessage (Unit {0})
  unfolding on_device ask sender_of
  cancel_pairing_rpc device =
      on_device device (λ dev. ask tasks tasks.reply_unit (sender_of dev) cancel_pairing)

  pub clear_bond_rpc : Option Proto.Device → Rpc S DeviceTaskMessage (Unit {0})
  unfolding on_device ask sender_of
  clear_bond_rpc device =
      on_device device (λ dev. ask tasks tasks.reply_unit (sender_of dev) clear_bond)

  pub set_transport_mode_rpc : Option Proto.Device → Bool → Rpc S DeviceTaskMessage Bool
  unfolding on_device ask sender_of
  set_transport_mode_rpc device usb_mode =
      on_device device
        (λ dev. ask tasks tasks.reply_mode (sender_of dev) (set_transport_mode usb_mode))

  -- A request of a device alone: `clear_zero`, `reset_zero` and `save_zero` with their messages.
  on_bare_device : DeviceTaskMessage → Proto.Device → Rpc S DeviceTaskMessage (Unit {0})
  unfolding post sender_of
  on_bare_device m p = device_from_proto p >>= λ dev. done (post tasks (sender_of dev) m)

  pub clear_zero_rpc : Proto.Device → Rpc S DeviceTaskMessage (Unit {0})
  unfolding on_bare_device
  clear_zero_rpc = on_bare_device clear_zero

  pub reset_zero_rpc : Proto.Device → Rpc S DeviceTaskMessage (Unit {0})
  unfolding on_bare_device
  reset_zero_rpc = on_bare_device reset_zero

  pub save_zero_rpc : Proto.Device → Rpc S DeviceTaskMessage (Unit {0})
  unfolding on_bare_device
  save_zero_rpc = on_bare_device save_zero

  -- The device list after `set_device_name`, with its reply and its messages. `send` may fail here
  -- without an error: then no reply comes.
  pub set_device_name_rpc :
      Option Proto.Device
      → Bytes
      → Outcome (Result (Unit {0}) Status × (List (Device × S) × List (S × DeviceTaskMessage)))
  unfolding reply_status sender_of modify
  set_device_name_rpc none name = done (err device_missing, (device_list, []))
  set_device_name_rpc (some p) name = device_from_proto p >>= λ dev. elim (sender_of dev) [
    | none ↦ done (err not_found, (device_list, []))
    | some tx ↦
        let m = set_device_name name in
        let answer =
          if tasks.send tx m then reply_status (tasks.reply_unit tx m) else err dropped_reply in
        elim answer [
          | err e ↦ done (err e, (device_list, (tx, m) ∷ []))
          | ok u ↦ done (
            ok tt,
            (
              modify device_key dev.uuid (λ e. (record (e.0) { name = name_bytes name }, e.1))
                  device_list,
              (tx, m) ∷ [],
            ),
          )
        ]
  ]

module _ {T : Type 0} (tasks : Tasks T DongleTaskMessage)
    (dongle_list : List (DongleInfo × T)) where
  dongle_sender_for_id : Bytes → Option T
  unfolding find
  dongle_sender_for_id id = elim (find dongle_key id dongle_list) [
    | none ↦ none
    | some e ↦ some e.1
  ]

  pub start_dongle_pairing_rpc : Bytes → ℕ → Result (Unit {0}) Status × List (T × DongleTaskMessage)
  unfolding ask dongle_sender_for_id
  start_dongle_pairing_rpc dongle_id timeout_ms =
      ask tasks tasks.reply_unit (dongle_sender_for_id dongle_id) (start_dongle_pairing timeout_ms)

  pub cancel_dongle_pairing_rpc : Bytes → Result (Unit {0}) Status × List (T × DongleTaskMessage)
  unfolding ask dongle_sender_for_id
  cancel_dongle_pairing_rpc dongle_id =
      ask tasks tasks.reply_unit (dongle_sender_for_id dongle_id) cancel_dongle_pairing

  pub clear_dongle_bonds_rpc : Bytes → Result (Unit {0}) Status × List (T × DongleTaskMessage)
  unfolding ask dongle_sender_for_id
  clear_dongle_bonds_rpc dongle_id =
      ask tasks tasks.reply_unit (dongle_sender_for_id dongle_id) clear_dongle_bonds
