-- ===== src/Server/DeviceTask/Requests.antt =====
-- What a device task does on the messages of the service: zeroing, vendor packets, registers,
-- settings, pairing, the transport mode and the name.
use odyssey_desktop.Prelude.{
  ℕ, Bool, true, false, Option, none, some, List, [], ◌∷◌, ◌++◌, Bytes, bytes_inst, ◌==◌, min, take,
  length, if◌then◌else◌, Result, ok, err, is_ok,
}
use odyssey_desktop.Prelude.Assoc.{insert, remove_key}
use odyssey_desktop.Common.Device.{Device, name_bytes}
use odyssey_desktop.Common.Events.{
  device_event, zero_result, save_zero_result, pairing_result, DeviceEventKind, Event,
}
use odyssey_desktop.Server.Hub.{update_name}
use odyssey_desktop.Server.Service.{
  DeviceTaskMessage, reset_zero, save_zero, clear_zero, write_vendor, read_register, write_register,
  read_config, write_config, flash_settings, cancel_pairing, clear_bond, start_pairing,
  set_transport_mode, set_device_name,
}
use odyssey_desktop.Server.DeviceTask.State.{
  Parts, TransportMode, usb_mode, ble_mode, GeneralConfig, impact_threshold, suppress_ms,
  other_config, TaskError, events_not_connected, events_not_available, no_device, no_control,
  timed_out_error, unexpected_response, unknown_config_kind, device_error, Reply, answered, failed,
  timed_out, NameResponse, name_set, other_response, Call, write_vendor_call, read_register_call,
  write_register_call, read_config_call, read_config_ctrl_call, write_config_call,
  write_config_ctrl_call, flash_settings_call, flash_settings_ctrl_call, start_pairing_call,
  wait_pairing_event, cancel_pairing_call, clear_bond_call, reboot, set_transport_mode_call,
  set_name_call, request_name_call, Effect, call, update_bond_name, emit, tell, reply_unit,
  reply_byte, reply_mode, save_offsets, Answers, Shared, Task, Turn,
}
use odyssey_desktop.Server.DeviceTask.Streams.{pause_streams, arm_resume}
use odyssey_desktop.Server.DeviceTask.Name.{heapless_name}

-- `match timeout(...) { Ok(r) => r.map_err(to_string), Err(_) => Err("... timed out") }`
unfoldable pub to_result : {A : Type 0} → Reply A → Result A TaskError
to_result (answered a) = ok a
to_result (failed e) = err (device_error e)
to_result timed_out = err timed_out_error

-- The value of a `GeneralConfig` reply.
unfoldable pub config_byte : Reply GeneralConfig → Result ℕ TaskError
config_byte (answered (impact_threshold v)) = ok v
config_byte (answered (suppress_ms v)) = ok v
config_byte (answered other_config) = ok 0
config_byte (failed e) = err (device_error e)
config_byte timed_out = err timed_out_error

unfoldable pub mode_result : Reply TransportMode → Result Bool TaskError
mode_result (answered usb_mode) = ok true
mode_result (answered ble_mode) = ok false
mode_result (failed e) = err (device_error e)
mode_result timed_out = err timed_out_error

unfoldable pub name_result : Reply NameResponse → Result (Unit {0}) TaskError
name_result (answered name_set) = ok tt
name_result (answered other_response) = err unexpected_response
name_result (failed e) = err (device_error e)
name_result timed_out = err timed_out_error

-- The setting of a kind byte, with the value that is to be written.
unfoldable pub config_kind : ℕ → ℕ → Option GeneralConfig
config_kind kind value =
    if kind == 0
    then some (impact_threshold value)
    else if kind == 1
    then some (suppress_ms value)
    else none

-- The task that `StartPairing` spawns, when `wait_pairing_event` has returned; `d` is the device
-- as it was at the start.
unfoldable pub pairing_done : {F Pkt : Type 0} → Device → Result (Bytes × Bytes) Bytes → Event F Pkt
pairing_done d (ok (uuid, name)) = device_event d (
    pairing_result
      (record { success = true; paired_address = uuid; paired_name = name; error = [] }))
pairing_done d (err e) = device_event d (
    pairing_result (record {
      success = false;
      paired_address = 0 ∷ 0 ∷ 0 ∷ 0 ∷ 0 ∷ 0 ∷ [];
      paired_name = [];
      error = e;
    }))

module _ {P : Parts} where
  -- The loop goes on.
  abbrev pub next : Shared P → Task P → List (Effect P) → Turn P
  next sh t out = record { task = t; shared = sh; effects = out; ended = false }

  -- The loop breaks.
  abbrev pub break : Shared P → Task P → List (Effect P) → Turn P
  break sh t out = record { task = t; shared = sh; effects = out; ended = true }

  abbrev pub emit_kind : Task P → DeviceEventKind P.Float P.Packet → Effect P
  emit_kind t k = emit (device_event t.device k)

  -- A call of the events link between a pause and a set timer, and its reply.
  unfoldable pub paused_call :
      {A : Type 0}
      → Shared P
      → Task P
      → P.VmDevice
      → Call P
      → (Result A TaskError → Effect P)
      → Result A TaskError
      → Turn P
  unfolding pause_streams arm_resume
  paused_call sh t dev c say r =
      let (t', out) = pause_streams dev t in
      next sh (arm_resume t') (out ++ call dev c ∷ say r ∷ [])

  unfoldable pub on_register :
      {A : Type 0}
      → Shared P
      → Task P
      → Call P
      → (Result A TaskError → Effect P)
      → Result A TaskError
      → Turn P
  unfolding paused_call
  on_register sh t c say r =
      if t.device.events_connected
      then (elim t.events_device [
        | none ↦ next sh t (say (err events_not_available) ∷ [])
        | some dev ↦ paused_call sh t dev c say r
      ])
      else next sh t (say (err events_not_connected) ∷ [])

  -- A setting: over the events link, else over the control link.
  unfoldable pub on_config :
      {A : Type 0}
      → Shared P
      → Task P
      → Call P
      → Call P
      → (Result A TaskError → Effect P)
      → Result A TaskError
      → Turn P
  unfolding paused_call
  on_config sh t c ctrl say r = elim t.events_device [
    | some dev ↦ paused_call sh t dev c say r
    | none ↦ elim t.control_device [
      | some dev ↦ next sh t (call dev ctrl ∷ say r ∷ [])
      | none ↦ next sh t (say (err no_device) ∷ [])
    ]
  ]

  unfoldable pub on_control : Shared P → Task P → Call P → Effect P → Turn P
  on_control sh t c reply = elim t.control_device [
    | some dev ↦ next sh t (call dev c ∷ reply ∷ [])
    | none ↦ next sh t (reply_unit (err no_control) ∷ [])
  ]

  unfoldable pub on_start_pairing : Answers P → Shared P → Task P → ℕ → Turn P
  unfolding to_result
  on_start_pairing a sh t timeout_ms = elim t.control_device [
    | none ↦ next sh t (reply_unit (err no_control) ∷ [])
    | some dev ↦
        let r = to_result a.done_call in
        if is_ok r
        then next sh (record t { pairing_in_progress = true })
            (call dev (start_pairing_call timeout_ms)
              ∷ call dev wait_pairing_event
              ∷ reply_unit r
              ∷ [])
        else next sh t (call dev (start_pairing_call timeout_ms) ∷ reply_unit r ∷ [])
  ]

  unfoldable pub on_transport_mode : Answers P → Shared P → Task P → Bool → Turn P
  unfolding mode_result
  on_transport_mode a sh t mode = elim t.control_device [
    | some dev ↦ break sh t (
        call dev (set_transport_mode_call mode)
        ∷ reply_mode (mode_result a.transport_mode)
        ∷ call dev reboot
        ∷ [])
    | none ↦ next sh t (reply_mode (err no_control) ∷ [])
  ]

  -- The device is asked to take the name: the calls, and the result.
  unfoldable pub ask_name :
      Answers P → Task P → Bytes → List (Effect P) × Result (Unit {0}) TaskError
  unfolding to_result name_result heapless_name
  ask_name a t name = elim t.control_device [
    | some dev ↦ (call dev (set_name_call name) ∷ [], to_result a.done_call)
    | none ↦ elim t.events_device [
      | some dev ↦
          (call dev (request_name_call (heapless_name name)) ∷ [], name_result a.name_response)
      | none ↦ ([], err no_device)
    ]
  ]

  unfoldable pub on_name : Answers P → Shared P → Task P → Bytes → Turn P
  unfolding ask_name heapless_name
  on_name a sh t name =
      let (out, r) = ask_name a t name in
      if is_ok r
      then next (record sh { bond_names = insert t.device.uuid name sh.bond_names })
          (record t { device = record (t.device) { name = name_bytes name } })
          (out
            ++ ((if t.has_hub then update_bond_name t.device.uuid (heapless_name name) ∷ [] else [])
                ++ tell (update_name t.device.uuid name) ∷ reply_unit r ∷ []))
      else next sh t (out ++ reply_unit r ∷ [])

  unfoldable pub on_service : Answers P → Shared P → Task P → DeviceTaskMessage → Turn P
  unfolding on_register on_config on_control on_start_pairing on_transport_mode on_name to_result
      config_byte config_kind
  on_service a sh t reset_zero =
      next (record sh { device_offsets = remove_key t.device.uuid sh.device_offsets }) t
        (emit_kind t (zero_result true) ∷ [])
  on_service a sh t save_zero =
      next sh t (save_offsets sh.device_offsets ∷ emit_kind t (save_zero_result true) ∷ [])
  on_service a sh t clear_zero =
      next (record sh { device_offsets = remove_key t.device.uuid sh.device_offsets }) t
        (emit_kind t (save_zero_result true) ∷ [])
  on_service a sh t (write_vendor tag bytes) = elim t.events_device [
    | some dev ↦
        next sh t (call dev (write_vendor_call tag (take (min (length bytes) 98) bytes)) ∷ [])
    | none ↦ next sh t []
  ]
  on_service a sh t (read_register port bank address) =
      on_register sh t (read_register_call (if port == 0 then 0 else 1) bank address) reply_byte
        (to_result a.register_value)
  on_service a sh t (write_register port bank address value) =
      on_register sh t (write_register_call (if port == 0 then 0 else 1) bank address value)
        reply_unit (to_result a.done_call)
  on_service a sh t (read_config kind) = elim (config_kind kind 0) [
    | none ↦ next sh t (reply_byte (err (unknown_config_kind kind)) ∷ [])
    | some ck ↦
        on_config sh t (read_config_call ck) (read_config_ctrl_call ck) reply_byte
          (config_byte a.config_value)
  ]
  on_service a sh t (write_config kind value) = elim (config_kind kind value) [
    | none ↦ next sh t (reply_unit (err (unknown_config_kind kind)) ∷ [])
    | some gc ↦
        on_config sh t (write_config_call gc) (write_config_ctrl_call gc) reply_unit
          (to_result a.done_call)
  ]
  on_service a sh t flash_settings = elim t.events_device [
    | some dev ↦ next sh t (call dev flash_settings_call ∷ reply_unit (to_result a.done_call) ∷ [])
    | none ↦ elim t.control_device [
      | some dev ↦
          next sh t (call dev flash_settings_ctrl_call ∷ reply_unit (to_result a.done_call) ∷ [])
      | none ↦ next sh t (reply_unit (err no_device) ∷ [])
    ]
  ]
  on_service a sh t (start_pairing timeout_ms) = on_start_pairing a sh t timeout_ms
  on_service a sh t cancel_pairing =
      on_control sh t cancel_pairing_call (reply_unit (to_result a.done_call))
  on_service a sh t clear_bond =
      on_control sh t clear_bond_call (reply_unit (to_result a.done_call))
  on_service a sh t (set_transport_mode mode) = on_transport_mode a sh t mode
  on_service a sh t (set_device_name name) = on_name a sh t name
