-- ===== src/Server/DeviceTask/Told.antt =====
-- What a turn of a device task tells the hub: nothing, its whole device, or a new name.
use odyssey_desktop.Prelude.{
  ◌≡◌, refl, ap, ◌∙◌, true, Option-cases, inl, inr, List, [], ◌∷◌, ◌++◌, Bytes, arith,
  if◌then◌else◌, Bool-cases, is_ok, Result, err, ◌==◌,
}
use odyssey_desktop.Common.Device.{Device, name_bytes}
use odyssey_desktop.Common.Events.{Event}
use odyssey_desktop.Server.Hub.{Message, update_device, update_name}
use odyssey_desktop.Server.Service.{
  DeviceTaskMessage, reset_zero, save_zero, clear_zero, write_vendor, read_register, write_register,
  read_config, write_config, flash_settings, cancel_pairing, clear_bond, start_pairing,
  set_transport_mode, set_device_name,
}
use odyssey_desktop.Server.DeviceTask.State.{
  Parts, StreamKind, Call, Effect, call, update_bond_name, emit, tell, reply_unit, reply_byte,
  reply_mode, save_offsets, Answers, Shared, Task, Turn, TaskError, read_register_call,
  write_register_call, read_config_call, read_config_ctrl_call, write_config_call,
  write_config_ctrl_call, events_not_available, events_not_connected, no_device,
}
use odyssey_desktop.Server.DeviceTask.Streams.{stream_calls, pause_streams, arm_resume}
use odyssey_desktop.Server.DeviceTask.Name.{heapless_name}
use odyssey_desktop.Server.DeviceTask.Requests.{
  on_service, on_register, on_config, on_name, ask_name, paused_call, on_control, on_start_pairing,
  on_transport_mode, config_kind, to_result, config_byte,
}

module _ {P : Parts} where
  -- The messages for the hub among the effects.
  unfoldable pub told :
      List (Effect P) → List (Message P.Sender P.DongleSender (Event P.Float P.Packet))
  told [] = []
  told (tell m ∷ es) = m ∷ told es
  told (call dev c ∷ es) = told es
  told (update_bond_name u n ∷ es) = told es
  told (emit e ∷ es) = told es
  told (reply_unit r ∷ es) = told es
  told (reply_byte r ∷ es) = told es
  told (reply_mode r ∷ es) = told es
  told (save_offsets m ∷ es) = told es

  pub told-++ : (a b : List (Effect P)) → told (a ++ b) ≡ told a ++ told b
  unfolding told
  told-++ [] b = refl
  told-++ (tell m ∷ es) b = ap (λ l. m ∷ l) (told-++ es b)
  told-++ (call dev c ∷ es) b = told-++ es b
  told-++ (update_bond_name u n ∷ es) b = told-++ es b
  told-++ (emit e ∷ es) b = told-++ es b
  told-++ (reply_unit r ∷ es) b = told-++ es b
  told-++ (reply_byte r ∷ es) b = told-++ es b
  told-++ (reply_mode r ∷ es) b = told-++ es b
  told-++ (save_offsets m ∷ es) b = told-++ es b

  pub told-stream_calls :
      (dev : P.VmDevice) (ks : List StreamKind) (es : List (Effect P))
      → told (stream_calls dev ks ++ es) ≡ told es
  unfolding told stream_calls
  told-stream_calls dev [] es = refl
  told-stream_calls dev (k ∷ ks) es = told-stream_calls dev ks es

  -- What was told of a turn that started with the device `d` and left the device `d'`.
  pub data Told (d : Device) (r : Turn P) : Type 0 where
    silent : r.task.device ≡ d → told r.effects ≡ [] → Told d r
    updated :
        r.task.device.uuid ≡ d.uuid → told r.effects ≡ update_device (r.task.device) ∷ [] → Told d r
    renamed :
        (name : Bytes)
        → r.task.device ≡ record d { name = name_bytes name }
        → told r.effects ≡ update_name d.uuid name ∷ []
        → Told d r
    quit : r.ended ≡ true → r.task.device.uuid ≡ d.uuid → told r.effects ≡ [] → Told d r

  -- A request that only calls and replies.
  pub record Quiet (d : Device) (r : Turn P) : Type 0 where
    pub same_device : r.task.device ≡ d
    pub told_nothing : told r.effects ≡ []

  paused_call-Quiet :
      {A : Type 0} (sh : Shared P) (t : Task P) (dev : P.VmDevice) (c : Call P)
      (say : Result A TaskError → Effect P) (r : Result A TaskError)
      → ((x : Result A TaskError) → told (say x ∷ []) ≡ [])
      → Quiet t.device (paused_call sh t dev c say r)
  unfolding told paused_call pause_streams arm_resume
  paused_call-Quiet sh t dev c say r h = ground (arith, h r)

  on_register-Quiet :
      {A : Type 0} (sh : Shared P) (t : Task P) (c : Call P) (say : Result A TaskError → Effect P)
      (r : Result A TaskError)
      → ((x : Result A TaskError) → told (say x ∷ []) ≡ [])
      → Quiet t.device (on_register sh t c say r)
  unfolding on_register
  on_register-Quiet sh t c say r h = elim (Option-cases t.events_device) [
    | inl n ↦ ground (arith, n, h (err events_not_available), h (err events_not_connected))
    | inr (dev, n) ↦
        ground (arith, n, h (err events_not_connected), paused_call-Quiet sh t dev c say r h)
  ]

  on_config-Quiet :
      {A : Type 0} (sh : Shared P) (t : Task P) (c ctrl : Call P)
      (say : Result A TaskError → Effect P) (r : Result A TaskError)
      → ((x : Result A TaskError) → told (say x ∷ []) ≡ [])
      → Quiet t.device (on_config sh t c ctrl say r)
  unfolding on_config told
  on_config-Quiet sh t c ctrl say r h = elim (Option-cases t.events_device) [
    | inl n ↦ ground (arith, n, h (err no_device), h r)
    | inr (dev, n) ↦ ground (arith, n, paused_call-Quiet sh t dev c say r h)
  ]

  from_Quiet : {d : Device} {r : Turn P} → Quiet d r → Told d r
  from_Quiet q = silent q.same_device q.told_nothing

  ask_name-told : (a : Answers P) (t : Task P) (name : Bytes) → told (ask_name a t name).0 ≡ []
  unfolding ask_name told
  ask_name-told a t name = ground arith

  hub_part :
      (t : Task P) (name : Bytes) (r : Result (Unit {0}) TaskError)
      → told (
          (if t.has_hub then update_bond_name t.device.uuid (heapless_name name) ∷ [] else [])
          ++ tell (update_name t.device.uuid name) ∷ reply_unit r ∷ [])
        ≡ update_name t.device.uuid name ∷ []
  unfolding told
  hub_part t name r = ground arith

  on_name-Told :
      (a : Answers P) (sh : Shared P) (t : Task P) (name : Bytes)
      → Told t.device (on_name a sh t name)
  unfolding on_name told
  on_name-Told a sh t name = elim (Bool-cases (is_ok (ask_name a t name).1)) [
    | inl e ↦ renamed name (ground (arith, e)) (
        rw (e, on_name)
          (told-++ (ask_name a t name).0 _ ∙ rw (ask_name-told a t name) (hub_part t name _)))
    | inr e ↦ silent (ground (arith, e)) (
        ground (
          arith,
          e,
          ask_name-told a t name,
          told-++ (ask_name a t name).0 (reply_unit (ask_name a t name).1 ∷ []),
        ))
  ]

  pub on_service-Told :
      (a : Answers P) (sh : Shared P) (t : Task P) (m : DeviceTaskMessage)
      → Told t.device (on_service a sh t m)
  unfolding on_service told on_control on_start_pairing on_transport_mode
  on_service-Told a sh t reset_zero = silent refl refl
  on_service-Told a sh t save_zero = silent refl refl
  on_service-Told a sh t clear_zero = silent refl refl
  on_service-Told a sh t (write_vendor tag bytes) = silent (ground arith) (ground arith)
  on_service-Told a sh t (read_register port bank address) = from_Quiet (
      on_register-Quiet sh t (read_register_call (if port == 0 then 0 else 1) bank address)
        reply_byte (to_result a.register_value) (λ e. refl))
  on_service-Told a sh t (write_register port bank address value) = from_Quiet (
      on_register-Quiet sh t (write_register_call (if port == 0 then 0 else 1) bank address value)
        reply_unit (to_result a.done_call) (λ e. refl))
  on_service-Told a sh t (read_config kind) = elim (Option-cases (config_kind kind 0)) [
    | inl n ↦ silent (ground (arith, n)) (ground (arith, n))
    | inr (ck, n) ↦
        rw (n, on_service)
          (from_Quiet (
            on_config-Quiet sh t (read_config_call ck) (read_config_ctrl_call ck) reply_byte
              (config_byte a.config_value) (λ e. refl)))
  ]
  on_service-Told a sh t (write_config kind value) = elim (Option-cases (config_kind kind value)) [
    | inl n ↦ silent (ground (arith, n)) (ground (arith, n))
    | inr (gc, n) ↦
        rw (n, on_service)
          (from_Quiet (
            on_config-Quiet sh t (write_config_call gc) (write_config_ctrl_call gc) reply_unit
              (to_result a.done_call) (λ e. refl)))
  ]
  on_service-Told a sh t flash_settings = silent (ground arith) (ground arith)
  on_service-Told a sh t (start_pairing timeout_ms) = silent (ground arith) (ground arith)
  on_service-Told a sh t cancel_pairing = silent (ground arith) (ground arith)
  on_service-Told a sh t clear_bond = silent (ground arith) (ground arith)
  on_service-Told a sh t (set_transport_mode mode) = silent (ground arith) (ground arith)
  on_service-Told a sh t (set_device_name name) = on_name-Told a sh t name
