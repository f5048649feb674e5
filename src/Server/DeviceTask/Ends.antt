-- ===== src/Server/DeviceTask/Ends.antt =====
-- The turns that leave the links of a device task alone, and those that do not.
use odyssey_desktop.Prelude.{
  ◌≡◌, refl, Bool, true, false, ◌||◌, some, Option-cases, inl, inr, List, [], ◌∷◌, arith,
  if◌then◌else◌, Result, ◌==◌,
}
use odyssey_desktop.Server.Service.{
  DeviceTaskMessage, reset_zero, save_zero, clear_zero, write_vendor, read_register, write_register,
  read_config, write_config, flash_settings, cancel_pairing, clear_bond, start_pairing,
  set_transport_mode, set_device_name,
}
use odyssey_desktop.Server.DeviceTask.State.{
  Parts, Call, Effect, Answers, Shared, Task, TaskError, read_register_call, write_register_call,
  read_config_call, read_config_ctrl_call, write_config_call, write_config_ctrl_call, reply_byte,
  reply_unit, add_events_device, add_control_device, remove_control_device, remove_events_device,
}
use odyssey_desktop.Server.DeviceTask.Streams.{
  restart, pause_streams, arm_resume, resume_streams, retry_streams,
}
use odyssey_desktop.Server.DeviceTask.Requests.{
  on_service, on_register, on_config, on_name, paused_call, on_control, on_start_pairing,
  on_transport_mode, config_kind, to_result, config_byte,
}
use odyssey_desktop.Server.DeviceTask.Loop.{Wake, message}

module _ {P : Parts} where
  -- The links are those of before.
  pub record SameLinks (t t' : Task P) : Type 0 where
    pub control_link : t'.control_device ≡ t.control_device
    pub events_link : t'.events_device ≡ t.events_device

  paused_call-SameLinks :
      {A : Type 0} (sh : Shared P) (t : Task P) (dev : P.VmDevice) (c : Call P)
      (say : Result A TaskError → Effect P) (r : Result A TaskError)
      → SameLinks t (paused_call sh t dev c say r).task
  unfolding paused_call pause_streams arm_resume
  paused_call-SameLinks sh t dev c say r = ground arith

  on_register-SameLinks :
      {A : Type 0} (sh : Shared P) (t : Task P) (c : Call P) (say : Result A TaskError → Effect P)
      (r : Result A TaskError)
      → SameLinks t (on_register sh t c say r).task
  unfolding on_register
  on_register-SameLinks sh t c say r = elim (Option-cases t.events_device) [
    | inl n ↦ ground (arith, n)
    | inr (dev, n) ↦ ground (arith, n, paused_call-SameLinks sh t dev c say r)
  ]

  on_config-SameLinks :
      {A : Type 0} (sh : Shared P) (t : Task P) (c ctrl : Call P)
      (say : Result A TaskError → Effect P) (r : Result A TaskError)
      → SameLinks t (on_config sh t c ctrl say r).task
  unfolding on_config
  on_config-SameLinks sh t c ctrl say r = elim (Option-cases t.events_device) [
    | inl n ↦ ground (arith, n)
    | inr (dev, n) ↦ ground (arith, n, paused_call-SameLinks sh t dev c say r)
  ]

  unchanged : (t : Task P) → SameLinks t t
  unchanged t = record { control_link = refl; events_link = refl }

  pub on_service-SameLinks :
      (a : Answers P) (sh : Shared P) (t : Task P) (m : DeviceTaskMessage)
      → SameLinks t (on_service a sh t m).task
  unfolding on_service on_control on_start_pairing on_transport_mode on_name
  on_service-SameLinks a sh t reset_zero = unchanged t
  on_service-SameLinks a sh t save_zero = unchanged t
  on_service-SameLinks a sh t clear_zero = unchanged t
  on_service-SameLinks a sh t (write_vendor tag bytes) = ground arith
  on_service-SameLinks a sh t (read_register port bank address) =
      on_register-SameLinks sh t (read_register_call (if port == 0 then 0 else 1) bank address)
        reply_byte (to_result a.register_value)
  on_service-SameLinks a sh t (write_register port bank address value) =
      on_register-SameLinks sh t
        (write_register_call (if port == 0 then 0 else 1) bank address value) reply_unit
        (to_result a.done_call)
  on_service-SameLinks a sh t (read_config kind) = elim (Option-cases (config_kind kind 0)) [
    | inl n ↦ rw (n, on_service) (unchanged t)
    | inr (ck, n) ↦
        rw (n, on_service)
          (on_config-SameLinks sh t (read_config_call ck) (read_config_ctrl_call ck) reply_byte
            (config_byte a.config_value))
  ]
  on_service-SameLinks a sh t (write_config kind value) =
      elim (Option-cases (config_kind kind value)) [
        | inl n ↦ rw (n, on_service) (unchanged t)
        | inr (gc, n) ↦
            rw (n, on_service)
              (on_config-SameLinks sh t (write_config_call gc) (write_config_ctrl_call gc)
                reply_unit (to_result a.done_call))
      ]
  on_service-SameLinks a sh t flash_settings = ground arith
  on_service-SameLinks a sh t (start_pairing timeout_ms) = ground arith
  on_service-SameLinks a sh t cancel_pairing = ground arith
  on_service-SameLinks a sh t clear_bond = ground arith
  on_service-SameLinks a sh t (set_transport_mode mode) = ground arith
  on_service-SameLinks a sh t (set_device_name name) = ground arith

  pub resume_streams-SameLinks : (a : Answers P) (t : Task P) → SameLinks t (resume_streams a t).0
  unfolding resume_streams restart
  resume_streams-SameLinks a t = ground arith

  pub retry_streams-SameLinks : (a : Answers P) (t : Task P) → SameLinks t (retry_streams a t).0
  unfolding retry_streams restart
  retry_streams-SameLinks a t = ground arith

  abbrev pub adds_link : Wake P → Bool
  adds_link (message (some (add_events_device dev v))) = true
  adds_link (message (some (add_control_device dev))) = true
  adds_link _ = false

  abbrev pub removes_control : Wake P → Bool
  removes_control (message (some remove_control_device)) = true
  removes_control _ = false

  abbrev pub removes_events : Wake P → Bool
  removes_events (message (some remove_events_device)) = true
  removes_events _ = false

  abbrev pub any_wake : (Wake P → Bool) → List (Answers P × Wake P) → Bool
  any_wake p [] = false
  any_wake p ((a, w) ∷ ws) = p w || any_wake p ws
