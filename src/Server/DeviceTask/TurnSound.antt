-- ===== src/Server/DeviceTask/TurnSound.antt =====
-- A device task is sound between two turns of its loop.
use odyssey_desktop.Prelude.{
  is_some, ◌≡◌, refl, ap, false, Bool-cases, none, some, Option-cases, inl, inr, List, [], ◌∷◌,
  arith,
}
use odyssey_desktop.Common.Device.{Version, control, remove}
use odyssey_desktop.Server.DeviceTask.State.{
  Parts, Command, Answers, Shared, Task, from_service, set_shot_delay, zero_to, add_events_device,
  add_control_device, remove_control_device, remove_events_device,
}
use odyssey_desktop.Server.DeviceTask.Streams.{
  is_empty, restart, resume_streams, retry_streams, streams_ended,
}
use odyssey_desktop.Server.DeviceTask.Links.{
  Libraries, apply_version, apply_mode, on_add_events, on_add_control, on_remove_control,
  on_remove_events, on_set_shot_delay, on_zero, without_control, has_independent_ble_events,
}
use odyssey_desktop.Server.DeviceTask.DeviceBits.{
  insert-control, insert-events, remove-events, remove-control, remove-dfu, apply_version-BitsAgree,
  apply_mode-BitsAgree,
}
use odyssey_desktop.Server.DeviceTask.Loop.{
  Wake, message, new_delay, resume_due, retry_due, report, OnReport, on_message, on_new_delay, turn,
  loop,
}
use odyssey_desktop.Server.DeviceTask.LoopSteps.{loop_goes_on}
use odyssey_desktop.Server.DeviceTask.Invariant.{Sound, restart-Sound, on_service-Sound}

module _ {P : Parts} where
  on_add_events-Sound :
      (a : Answers P) (sh : Shared P) (t : Task P) (dev : P.VmDevice) (v : Version)
      → Sound t
      → Sound (on_add_events a sh t dev v).task
  unfolding on_add_events restart
  on_add_events-Sound a sh t dev v h = elim (Bool-cases t.has_sensor_streams) [
    | inl e ↦ ground (arith, e, h)
    | inr e ↦
        rw (e, on_add_events)
          (record {
            bits = ground (arith, h, insert-events t.device.capabilities h.bits.is_byte);
            flagged = refl;
            linked = λ _. refl;
            paused_armed = h.paused_armed;
          })
  ]

  on_add_control-Sound :
      (a : Answers P) (sh : Shared P) (t : Task P) (dev : P.VmDevice)
      → Sound t
      → Sound (on_add_control a sh t dev).task
  unfolding on_add_control
  on_add_control-Sound a sh t dev h =
      let d1 = apply_version a.firmware_semver t.device in
      let g1 = apply_version-BitsAgree t.device h.bits a.firmware_semver in
      let d2 = apply_mode (is_some t.events_device) a.transport_mode d1 in
      let g2 = apply_mode-BitsAgree d1 g1 a.transport_mode in
      record {
        bits = ground (arith, g2, insert-control d2.capabilities g2.is_byte);
        flagged = h.flagged;
        linked = h.linked;
        paused_armed = h.paused_armed;
      }

  on_remove_control-Sound :
      (sh : Shared P) (t : Task P)
      → Sound t
      → (on_remove_control sh t).ended ≡ false
      → Sound (on_remove_control sh t).task
  unfolding on_remove_control
  on_remove_control-Sound sh t h n =
      let c = remove-control t.device.capabilities h.bits.is_byte in
      elim (Bool-cases (has_independent_ble_events (without_control t))) [
        | inl e ↦ ground (arith, e, h, c, remove-dfu (remove t.device.capabilities control) c.2.1)
        | inr e ↦ ground (arith, e, n)
      ]

  on_remove_events-Sound :
      (sh : Shared P) (t : Task P) → Sound t → Sound (on_remove_events sh t).task
  unfolding on_remove_events is_empty
  on_remove_events-Sound sh t h = elim (Option-cases t.control_device) [
    | inl n ↦ ground (arith, n, h, remove-events t.device.capabilities h.bits.is_byte)
    | inr (dev, n) ↦ ground (arith, n, h, remove-events t.device.capabilities h.bits.is_byte)
  ]

  resume_streams-Sound : (a : Answers P) (t : Task P) → Sound t → Sound (resume_streams a t).0
  unfolding resume_streams
  resume_streams-Sound a t h = elim (Option-cases t.events_device) [
    | inl n ↦ ground (arith, n, h)
    | inr (dev, n) ↦ ground (
      arith,
      n,
      h,
      restart-Sound a dev (record t { streams_resume_armed = false; streams_paused = false }) h.bits
          (ap is_some n) refl,
    )
  ]

  retry_streams-Sound : (a : Answers P) (t : Task P) → Sound t → Sound (retry_streams a t).0
  unfolding retry_streams
  retry_streams-Sound a t h = elim (Option-cases t.events_device) [
    | inl n ↦ ground (arith, n, h)
    | inr (dev, n) ↦
        ground (arith, n, h, restart-Sound a dev t h.bits (ap is_some n) h.paused_armed)
  ]

module _ {P : Parts} (lib : Libraries P) where
  on_message-Sound :
      (a : Answers P) (sh : Shared P) (t : Task P) (m : Command P)
      → Sound t
      → (on_message lib a sh t m).ended ≡ false
      → Sound (on_message lib a sh t m).task
  unfolding on_message on_set_shot_delay on_zero
  on_message-Sound a sh t (from_service m) h n = on_service-Sound a sh t m h
  on_message-Sound a sh t (set_shot_delay ms) h n = h
  on_message-Sound a sh t (zero_to trans point none) h n = ground (arith, h)
  on_message-Sound a sh t (zero_to trans point (some te)) h n = ground (arith, h)
  on_message-Sound a sh t (add_events_device dev v) h n = on_add_events-Sound a sh t dev v h
  on_message-Sound a sh t (add_control_device dev) h n = on_add_control-Sound a sh t dev h
  on_message-Sound a sh t remove_control_device h n = on_remove_control-Sound sh t h n
  on_message-Sound a sh t remove_events_device h n = on_remove_events-Sound sh t h

module _ {P : Parts} (lib : Libraries P) (on_report : OnReport P) where
  pub turn-Sound :
      (a : Answers P) (sh : Shared P) (t : Task P) (w : Wake P)
      → Sound t
      → (turn lib on_report a sh t w).ended ≡ false
      → Sound (turn lib on_report a sh t w).task
  unfolding turn on_new_delay streams_ended is_empty
  turn-Sound a sh t (message none) h n = h
  turn-Sound a sh t (message (some m)) h n = on_message-Sound lib a sh t m h n
  turn-Sound a sh t (new_delay d) h n = ground (arith, h)
  turn-Sound a sh t resume_due h n = resume_streams-Sound a t h
  turn-Sound a sh t retry_due h n = retry_streams-Sound a t h
  turn-Sound a sh t (report none) h n = ground (arith, h)
  turn-Sound a sh t (report (some r)) h n = ground (arith, h)

  -- Let a task be sound: its CONTROL bit says whether it has a control link, its EVENTS bit whether
  -- its events are connected, which they are if it has an events link, its DFU bit is set only with
  -- a control link; its sensor streams run only on an events link, and the flag says whether any
  -- runs; the debounce timer is set exactly if the streams are paused. Then it is sound after
  -- whatever wakes it up and whatever its links answer, if it has not ended.
  pub loop-Sound :
      (sh : Shared P) (t : Task P) (ws : List (Answers P × Wake P))
      → Sound t
      → (loop lib on_report sh t ws).ended ≡ false
      → Sound (loop lib on_report sh t ws).task
  unfolding loop
  loop-Sound sh t [] h n = h
  loop-Sound sh t ((a, w) ∷ ws) h n =
      let r = turn lib on_report a sh t w in
      elim (Bool-cases r.ended) [
        | inl e ↦ ground (arith, e, n)
        | inr e ↦
            rw (loop_goes_on lib on_report sh t a w ws e)
              (loop-Sound r.shared r.task ws (turn-Sound a sh t w h e) (ground (arith, n, e)))
      ]
