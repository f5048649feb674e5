-- ===== src/Server/DeviceTask/Invariant.antt =====
-- What holds of a device task between two turns of its loop.
use odyssey_desktop.Prelude.{
  is_some, ◌≡◌, refl, true, not, Option-cases, inl, inr, Bytes, arith, if◌then◌else◌, Result, ◌==◌,
}
use odyssey_desktop.Server.Service.{
  DeviceTaskMessage, reset_zero, save_zero, clear_zero, write_vendor, read_register, write_register,
  read_config, write_config, flash_settings, cancel_pairing, clear_bond, start_pairing,
  set_transport_mode, set_device_name,
}
use odyssey_desktop.Server.DeviceTask.State.{
  Parts, Call, Effect, Answers, Shared, Task, TaskError, read_register_call, write_register_call,
  read_config_call, read_config_ctrl_call, write_config_call, write_config_ctrl_call, reply_byte,
  reply_unit,
}
use odyssey_desktop.Server.DeviceTask.Streams.{is_empty, restart, pause_streams, arm_resume}
use odyssey_desktop.Server.DeviceTask.Requests.{
  on_service, on_register, on_config, on_name, paused_call, on_control, on_start_pairing,
  on_transport_mode, config_kind, to_result, config_byte,
}
use odyssey_desktop.Server.DeviceTask.DeviceBits.{BitsAgree}

module _ {P : Parts} where
  -- The bits of the device show its links; streams run only with an events link, and the flag says
  -- whether they do; and while they are paused the timer that ends the pause is set.
  pub record Sound (t : Task P) : Type 0 where
    pub bits : BitsAgree (is_some t.control_device) (is_some t.events_device) t.device
    pub flagged : t.has_sensor_streams ≡ not (is_empty t.sensor_streams)
    pub linked : t.has_sensor_streams ≡ true → is_some t.events_device ≡ true
    pub paused_armed : t.streams_resume_armed ≡ t.streams_paused

  pub restart-Sound :
      (a : Answers P) (dev : P.VmDevice) (t : Task P)
      → BitsAgree (is_some t.control_device) (is_some t.events_device) t.device
      → is_some t.events_device ≡ true
      → t.streams_resume_armed ≡ t.streams_paused
      → Sound (restart a dev t).0
  unfolding restart
  restart-Sound a dev t b e p = record {
    bits = b;
    flagged = refl;
    linked = λ _. e;
    paused_armed = p;
  }

  paused_call-Sound :
      {A : Type 0} (sh : Shared P) (t : Task P) (dev : P.VmDevice) (c : Call P)
      (say : Result A TaskError → Effect P) (r : Result A TaskError)
      → Sound t
      → Sound (paused_call sh t dev c say r).task
  unfolding paused_call pause_streams arm_resume is_empty
  paused_call-Sound sh t dev c say r h = ground (arith, h)

  on_register-Sound :
      {A : Type 0} (sh : Shared P) (t : Task P) (c : Call P) (say : Result A TaskError → Effect P)
      (r : Result A TaskError)
      → Sound t
      → Sound (on_register sh t c say r).task
  unfolding on_register
  on_register-Sound sh t c say r h = elim (Option-cases t.events_device) [
    | inl n ↦ ground (arith, n, h)
    | inr (dev, n) ↦ ground (arith, n, h, paused_call-Sound sh t dev c say r h)
  ]

  on_config-Sound :
      {A : Type 0} (sh : Shared P) (t : Task P) (c ctrl : Call P)
      (say : Result A TaskError → Effect P) (r : Result A TaskError)
      → Sound t
      → Sound (on_config sh t c ctrl say r).task
  unfolding on_config
  on_config-Sound sh t c ctrl say r h = elim (Option-cases t.events_device) [
    | inl n ↦ ground (arith, n, h)
    | inr (dev, n) ↦ ground (arith, n, h, paused_call-Sound sh t dev c say r h)
  ]

  on_name-Sound :
      (a : Answers P) (sh : Shared P) (t : Task P) (name : Bytes)
      → Sound t
      → Sound (on_name a sh t name).task
  unfolding on_name
  on_name-Sound a sh t name h = ground (arith, h)

  pub on_service-Sound :
      (a : Answers P) (sh : Shared P) (t : Task P) (m : DeviceTaskMessage)
      → Sound t
      → Sound (on_service a sh t m).task
  unfolding on_service on_control on_start_pairing on_transport_mode
  on_service-Sound a sh t reset_zero h = h
  on_service-Sound a sh t save_zero h = h
  on_service-Sound a sh t clear_zero h = h
  on_service-Sound a sh t (write_vendor tag bytes) h = ground (arith, h)
  on_service-Sound a sh t (read_register port bank address) h =
      on_register-Sound sh t (read_register_call (if port == 0 then 0 else 1) bank address)
        reply_byte (to_result a.register_value) h
  on_service-Sound a sh t (write_register port bank address value) h =
      on_register-Sound sh t (write_register_call (if port == 0 then 0 else 1) bank address value)
        reply_unit (to_result a.done_call) h
  on_service-Sound a sh t (read_config kind) h = elim (Option-cases (config_kind kind 0)) [
    | inl n ↦ rw (n, on_service) h
    | inr (ck, n) ↦
        rw (n, on_service)
          (on_config-Sound sh t (read_config_call ck) (read_config_ctrl_call ck) reply_byte
            (config_byte a.config_value) h)
  ]
  on_service-Sound a sh t (write_config kind value) h =
      elim (Option-cases (config_kind kind value)) [
        | inl n ↦ rw (n, on_service) h
        | inr (gc, n) ↦
            rw (n, on_service)
              (on_config-Sound sh t (write_config_call gc) (write_config_ctrl_call gc) reply_unit
                (to_result a.done_call) h)
      ]
  on_service-Sound a sh t flash_settings h = ground (arith, h)
  on_service-Sound a sh t (start_pairing timeout_ms) h = ground (arith, h)
  on_service-Sound a sh t cancel_pairing h = ground (arith, h)
  on_service-Sound a sh t clear_bond h = ground (arith, h)
  on_service-Sound a sh t (set_transport_mode mode) h = ground (arith, h)
  on_service-Sound a sh t (set_device_name name) h = on_name-Sound a sh t name h
