-- ===== src/Server/Hub.antt =====
-- odyssey_hub_server/src/lib.rs, the forwarding of device-task messages (`event_fwd_stream` in
-- `run_server`): the device list, the dongle list and what is broadcast. `S` and `T` are the senders
-- of the device and the dongle tasks, `Ev` the events; a lock is held for the whole of a message.
pub mod Refine
pub mod History
pub mod Tests
use odyssey_desktop.Prelude.{
  ℕ, Option, none, some, List, [], ◌∷◌, ◌++◌, Bytes, set, get_elem?, length,
}
use odyssey_desktop.Common.Device.{Device, Version, name_bytes}
use odyssey_desktop.Server.Keyed.{position, modify, remove_at}

pub record DongleInfo : Type 0 where
  pub id : Bytes
  pub protocol_version : Version
  pub control_protocol_version : Version
  pub firmware_version : Version
  pub connected_devices : List Bytes
  pub bonded_devices : List Bytes

pub record Hub (S T : Type 0) : Type 0 where
  pub device_list : List (Device × S)
  pub dongle_list : List (DongleInfo × T)

pub data Message (S T Ev : Type 0) : Type 0 where
  connect : Device → Option S → Message S T Ev
  disconnect : Device → Message S T Ev
  update_device : Device → Message S T Ev
  update_name : Bytes → Bytes → Message S T Ev
  dongle_connect : DongleInfo → T → Message S T Ev
  dongle_update : DongleInfo → Message S T Ev
  dongle_disconnect : Bytes → Message S T Ev
  event : Ev → Message S T Ev

-- What is sent to the subscribers.
pub data Signal (Ev : Type 0) : Type 0 where
  list_change : Signal Ev
  dongle_change : Signal Ev
  forwarded : Ev → Signal Ev

-- `list[i].0 = d`
pub replace_first {ℓ κ} : {A : Type ℓ} {B : Type κ} → List (A × B) → ℕ → A → List (A × B)
replace_first xs i a = elim (get_elem? xs i) [ none ↦ xs | some (_, b) ↦ set xs i (a, b) ]

module _ {S : Type 0} where
  abbrev pub device_key : Device × S → Bytes
  device_key d = d.0.uuid

  -- `dummy_tx` is the sender of the fresh channel that stands in where a device has none.
  pub connect_device : S → Device → Option S → List (Device × S) → List (Device × S)
  unfolding replace_first position
  connect_device dummy_tx d1 commands dl = elim (position device_key d1.uuid dl) [
    | some existing_idx ↦ elim commands [
      | some commands_tx ↦ set dl existing_idx (d1, commands_tx)
      | none ↦ replace_first dl existing_idx d1
    ]
    | none ↦ elim commands [
      | some commands_tx ↦ dl ++ (d1, commands_tx) ∷ []
      | none ↦ dl ++ (d1, dummy_tx) ∷ []
    ]
  ]

  pub disconnect_device : Device → List (Device × S) → List (Device × S)
  unfolding position
  disconnect_device d dl = elim (position device_key d.uuid dl) [
    | none ↦ dl
    | some i ↦ remove_at dl i
  ]

module _ {T : Type 0} where
  abbrev pub dongle_key : DongleInfo × T → Bytes
  dongle_key d = d.0.id

  pub connect_dongle : DongleInfo → T → List (DongleInfo × T) → List (DongleInfo × T)
  unfolding position
  connect_dongle info cmd_tx guard = elim (position dongle_key info.id guard) [
    | some idx ↦ set guard idx (info, cmd_tx)
    | none ↦ guard ++ (info, cmd_tx) ∷ []
  ]

  pub update_dongle : DongleInfo → List (DongleInfo × T) → List (DongleInfo × T)
  unfolding position replace_first
  update_dongle info guard = elim (position dongle_key info.id guard) [
    | none ↦ guard
    | some idx ↦ replace_first guard idx info
  ]

  pub disconnect_dongle : Bytes → List (DongleInfo × T) → List (DongleInfo × T)
  unfolding position
  disconnect_dongle id guard = elim (position dongle_key id guard) [
    | none ↦ guard
    | some idx ↦ remove_at guard idx
  ]

module _ {S T Ev : Type 0} (dummy_tx : S) where
  pub handle : Hub S T → Message S T Ev → Hub S T × List (Signal Ev)
  unfolding connect_device disconnect_device connect_dongle update_dongle disconnect_dongle modify
  handle h (connect d1 commands) = (
    record h { device_list = connect_device dummy_tx d1 commands h.device_list },
    list_change ∷ [],
  )
  handle h (disconnect d) =
      (record h { device_list = disconnect_device d h.device_list }, list_change ∷ [])
  handle h (update_device d) = (
    record h { device_list = modify device_key d.uuid (λ e. (d, e.1)) h.device_list },
    list_change ∷ [],
  )
  handle h (update_name uuid name) = (
    record h {
      device_list =
          modify device_key uuid (λ e. (record (e.0) { name = name_bytes name }, e.1))
            h.device_list;
    },
    list_change ∷ [],
  )
  handle h (dongle_connect info cmd_tx) =
      (record h { dongle_list = connect_dongle info cmd_tx h.dongle_list }, dongle_change ∷ [])
  handle h (dongle_update info) =
      (record h { dongle_list = update_dongle info h.dongle_list }, dongle_change ∷ [])
  handle h (dongle_disconnect id) =
      (record h { dongle_list = disconnect_dongle id h.dongle_list }, dongle_change ∷ [])
  handle h (event e) = (h, forwarded e ∷ [])

  -- The messages in the order in which the channel yields them.
  pub run : Hub S T → List (Message S T Ev) → Hub S T × List (Signal Ev)
  run h [] = (h, [])
  run h (m ∷ ms) = let (h', out) = handle h m in let (h'', rest) = run h' ms in (h'', out ++ rest)
