-- ===== src/Server/DeviceTask/Replies.antt =====
-- Each request of a client is answered once, and what is called on the way.
use odyssey_desktop.Prelude.{
  ℕ, ◌+◌, ◌≡◌, refl, suc, Bool, true, false, Bool-cases, Option-cases, inl, inr, List, [], ◌∷◌,
  ◌++◌, Bytes, arith, if◌then◌else◌, Result, is_ok, err, ◌==◌,
}
use odyssey_desktop.Server.Service.{
  DeviceTaskMessage, reset_zero, save_zero, clear_zero, write_vendor, read_register, write_register,
  read_config, write_config, flash_settings, cancel_pairing, clear_bond, start_pairing,
  set_transport_mode, set_device_name,
}
use odyssey_desktop.Server.Hub.{update_name}
use odyssey_desktop.Server.DeviceTask.Name.{heapless_name}
use odyssey_desktop.Server.DeviceTask.State.{
  Parts, Call, Effect, Answers, Shared, Task, TaskError, read_register_call, write_register_call,
  read_config_call, read_config_ctrl_call, write_config_call, write_config_ctrl_call, call,
  update_bond_name, emit, tell, reply_byte, reply_unit, reply_mode, save_offsets,
  events_not_available, events_not_connected, no_device,
}
use odyssey_desktop.Server.DeviceTask.Streams.{pause_streams}
use odyssey_desktop.Server.DeviceTask.Requests.{
  on_service, on_register, on_config, on_name, ask_name, paused_call, on_control, on_start_pairing,
  on_transport_mode, config_kind, to_result, config_byte,
}

-- The requests that carry a reply channel.
abbrev pub wants_reply : DeviceTaskMessage → Bool
wants_reply reset_zero = false
wants_reply save_zero = false
wants_reply clear_zero = false
wants_reply (write_vendor tag bytes) = false
wants_reply _ = true

module _ {P : Parts} where
  -- How many replies are sent.
  unfoldable pub replies : List (Effect P) → ℕ
  replies [] = 0
  replies (reply_unit r ∷ es) = suc (replies es)
  replies (reply_byte r ∷ es) = suc (replies es)
  replies (reply_mode r ∷ es) = suc (replies es)
  replies (tell m ∷ es) = replies es
  replies (call dev c ∷ es) = replies es
  replies (update_bond_name u n ∷ es) = replies es
  replies (emit e ∷ es) = replies es
  replies (save_offsets m ∷ es) = replies es

  replies-++ : (a b : List (Effect P)) → replies (a ++ b) ≡ replies a + replies b
  unfolding replies
  replies-++ [] b = omega arith
  replies-++ (reply_unit r ∷ es) b = omega (arith, replies-++ es b)
  replies-++ (reply_byte r ∷ es) b = omega (arith, replies-++ es b)
  replies-++ (reply_mode r ∷ es) b = omega (arith, replies-++ es b)
  replies-++ (tell m ∷ es) b = replies-++ es b
  replies-++ (call dev c ∷ es) b = replies-++ es b
  replies-++ (update_bond_name u n ∷ es) b = replies-++ es b
  replies-++ (emit e ∷ es) b = replies-++ es b
  replies-++ (save_offsets m ∷ es) b = replies-++ es b

  paused_call-replies :
      {A : Type 0} (sh : Shared P) (t : Task P) (dev : P.VmDevice) (c : Call P)
      (say : Result A TaskError → Effect P) (r : Result A TaskError)
      → ((x : Result A TaskError) → replies (say x ∷ []) ≡ 1)
      → replies (paused_call sh t dev c say r).effects ≡ 1
  unfolding paused_call pause_streams replies
  paused_call-replies sh t dev c say r h = ground (arith, h r)

  on_register-replies :
      {A : Type 0} (sh : Shared P) (t : Task P) (c : Call P) (say : Result A TaskError → Effect P)
      (r : Result A TaskError)
      → ((x : Result A TaskError) → replies (say x ∷ []) ≡ 1)
      → replies (on_register sh t c say r).effects ≡ 1
  unfolding on_register
  on_register-replies sh t c say r h = elim (Option-cases t.events_device) [
    | inl n ↦ ground (arith, n, h (err events_not_available), h (err events_not_connected))
    | inr (dev, n) ↦
        ground (arith, n, h (err events_not_connected), paused_call-replies sh t dev c say r h)
  ]

  on_config-replies :
      {A : Type 0} (sh : Shared P) (t : Task P) (c ctrl : Call P)
      (say : Result A TaskError → Effect P) (r : Result A TaskError)
      → ((x : Result A TaskError) → replies (say x ∷ []) ≡ 1)
      → replies (on_config sh t c ctrl say r).effects ≡ 1
  unfolding on_config replies
  on_config-replies sh t c ctrl say r h = elim (Option-cases t.events_device) [
    | inl n ↦ ground (arith, n, h r, h (err no_device))
    | inr (dev, n) ↦ ground (arith, n, paused_call-replies sh t dev c say r h)
  ]

  ask_name-replies : (a : Answers P) (t : Task P) (name : Bytes) → replies (ask_name a t name).0 ≡ 0
  unfolding ask_name replies
  ask_name-replies a t name = ground arith

  on_name-replies :
      (a : Answers P) (sh : Shared P) (t : Task P) (name : Bytes)
      → replies (on_name a sh t name).effects ≡ 1
  unfolding on_name replies
  on_name-replies a sh t name =
      let es = (ask_name a t name).0 in
      let r = (ask_name a t name).1 in
      let z = ask_name-replies a t name in
      elim (Bool-cases (is_ok r)) [
        | inl e ↦ elim (Bool-cases t.has_hub) [
          | inl b ↦ ground (
            arith,
            e,
            b,
            z,
            replies-++ es (
                update_bond_name t.device.uuid (heapless_name name)
                ∷ tell (update_name t.device.uuid name)
                ∷ reply_unit r
                ∷ []),
          )
          | inr b ↦ ground (
            arith,
            e,
            b,
            z,
            replies-++ es (tell (update_name t.device.uuid name) ∷ reply_unit r ∷ []),
          )
        ]
        | inr e ↦ ground (arith, e, z, replies-++ es (reply_unit r ∷ []))
      ]

  -- A request of the service that carries a reply channel is answered exactly once within its turn,
  -- and one that carries none is not answered, with whatever links the task has, streams running or
  -- paused, and whether the links answer, fail or time out.
  pub replies-on_service :
      (a : Answers P) (sh : Shared P) (t : Task P) (m : DeviceTaskMessage)
      → replies (on_service a sh t m).effects ≡ (if wants_reply m then 1 else 0)
  unfolding on_service on_control on_start_pairing on_transport_mode replies
  replies-on_service a sh t reset_zero = refl
  replies-on_service a sh t save_zero = refl
  replies-on_service a sh t clear_zero = refl
  replies-on_service a sh t (write_vendor tag bytes) = ground arith
  replies-on_service a sh t (read_register port bank address) =
      on_register-replies sh t (read_register_call (if port == 0 then 0 else 1) bank address)
        reply_byte (to_result a.register_value) (λ x. refl)
  replies-on_service a sh t (write_register port bank address value) =
      on_register-replies sh t (write_register_call (if port == 0 then 0 else 1) bank address value)
        reply_unit (to_result a.done_call) (λ x. refl)
  replies-on_service a sh t (read_config kind) = elim (Option-cases (config_kind kind 0)) [
    | inl n ↦ rw (n, on_service) refl
    | inr (ck, n) ↦
        rw (n, on_service)
          (on_config-replies sh t (read_config_call ck) (read_config_ctrl_call ck) reply_byte
            (config_byte a.config_value) (λ x. refl))
  ]
  replies-on_service a sh t (write_config kind value) =
      elim (Option-cases (config_kind kind value)) [
        | inl n ↦ rw (n, on_service) refl
        | inr (gc, n) ↦
            rw (n, on_service)
              (on_config-replies sh t (write_config_call gc) (write_config_ctrl_call gc) reply_unit
                (to_result a.done_call) (λ x. refl))
      ]
  replies-on_service a sh t flash_settings = ground arith
  replies-on_service a sh t (start_pairing timeout_ms) = ground arith
  replies-on_service a sh t cancel_pairing = ground arith
  replies-on_service a sh t clear_bond = ground arith
  replies-on_service a sh t (set_transport_mode mode) = ground arith
  replies-on_service a sh t (set_device_name name) = on_name-replies a sh t name
