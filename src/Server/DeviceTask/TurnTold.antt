-- ===== src/Server/DeviceTask/TurnTold.antt =====
-- What each turn of a device task tells the hub.
use odyssey_desktop.Prelude.{
  ◌≡◌, refl, none, some, Option-cases, inl, inr, List, [], ◌∷◌, ◌++◌, bytes_inst, arith,
  if◌then◌else◌, Bool-cases,
}
use odyssey_desktop.Prelude.Assoc.{lookup}
use odyssey_desktop.Common.Device.{Device, Version}
use odyssey_desktop.Common.Events.{DeviceEventKind}
use odyssey_desktop.Server.DeviceTask.State.{
  Parts, StreamKind, Command, Effect, Answers, Shared, Task, from_service, set_shot_delay, zero_to,
  add_events_device, add_control_device, remove_control_device, remove_events_device,
}
use odyssey_desktop.Server.DeviceTask.Streams.{
  stream_calls, restart, wanted_streams, version_gt, resume_streams, retry_streams, streams_ended,
}
use odyssey_desktop.Server.DeviceTask.Links.{
  Libraries, apply_version, apply_mode, on_add_events, on_add_control, on_remove_control,
  on_remove_events, on_set_shot_delay, on_zero, without_control, has_independent_ble_events,
}
use odyssey_desktop.Server.DeviceTask.Loop.{
  Wake, message, new_delay, resume_due, retry_due, report, OnReport, emit_all, on_message,
  on_new_delay, turn,
}
use odyssey_desktop.Server.DeviceTask.Told.{
  told, told-stream_calls, Told, silent, updated, quit, on_service-Told,
}

module _ (P : Parts) where
  pub told-stream_calls_alone :
      (dev : P.VmDevice) (ks : List StreamKind) → told {P = P} (stream_calls dev ks) ≡ []
  unfolding told stream_calls
  told-stream_calls_alone dev [] = refl
  told-stream_calls_alone dev (k ∷ ks) = told-stream_calls_alone dev ks

  pub told-emit_all :
      (d : Device) (ks : List (DeviceEventKind P.Float P.Packet))
      → told {P = P} (emit_all d ks) ≡ []
  unfolding told
  told-emit_all d [] = refl
  told-emit_all d (k ∷ ks) = told-emit_all d ks

module _ {P : Parts} where
  told-restart :
      (a : Answers P) (dev : P.VmDevice) (t : Task P) (es : List (Effect P))
      → told ((restart a dev t).1 ++ es) ≡ told es
  unfolding restart
  told-restart a dev t es = told-stream_calls dev (wanted_streams t.protocol_version) es

  told-restart_alone :
      (a : Answers P) (dev : P.VmDevice) (t : Task P) → told (restart a dev t).1 ≡ []
  unfolding restart told
  told-restart_alone a dev t = told-stream_calls_alone P dev (wanted_streams t.protocol_version)

  abbrev max_version : Version → Task P → Version
  max_version v t = if version_gt v t.protocol_version then v else t.protocol_version

  on_add_events-Told :
      (a : Answers P) (sh : Shared P) (t : Task P) (dev : P.VmDevice) (v : Version)
      → Told t.device (on_add_events a sh t dev v)
  unfolding on_add_events told
  on_add_events-Told a sh t dev v = elim (Bool-cases t.has_sensor_streams) [
    | inl e ↦ silent (ground (arith, e)) (ground (arith, e))
    | inr e ↦
        updated (ground (arith, e))
          (rw (e, on_add_events) (told-stream_calls dev (wanted_streams (max_version v t)) _))
  ]

  on_remove_control-Told : (sh : Shared P) (t : Task P) → Told t.device (on_remove_control sh t)
  unfolding on_remove_control told
  on_remove_control-Told sh t = elim (Bool-cases (has_independent_ble_events (without_control t))) [
    | inl e ↦ updated (ground (arith, e)) (ground (arith, e))
    | inr e ↦ quit (ground (arith, e)) (ground (arith, e)) (ground (arith, e))
  ]

  on_remove_events-Told : (sh : Shared P) (t : Task P) → Told t.device (on_remove_events sh t)
  unfolding on_remove_events told
  on_remove_events-Told sh t = elim (Option-cases t.control_device) [
    | inl n ↦ quit (ground (arith, n)) (ground (arith, n)) (ground (arith, n))
    | inr (dev, n) ↦ updated (ground (arith, n)) (ground (arith, n))
  ]

  resume_streams-silent :
      (a : Answers P) (t : Task P)
      → ((resume_streams a t).0.device ≡ t.device) × (told (resume_streams a t).1 ≡ [])
  unfolding resume_streams told restart
  resume_streams-silent a t = elim (Option-cases t.events_device) [
    | inl n ↦ (ground (arith, n), ground (arith, n))
    | inr (dev, n) ↦ (
      ground (arith, n),
      ground (arith, n, told-stream_calls_alone P dev (wanted_streams t.protocol_version)),
    )
  ]

  retry_streams-silent :
      (a : Answers P) (t : Task P)
      → ((retry_streams a t).0.device ≡ t.device) × (told (retry_streams a t).1 ≡ [])
  unfolding retry_streams told restart
  retry_streams-silent a t = elim (Option-cases t.events_device) [
    | inl n ↦ (ground (arith, n), ground (arith, n))
    | inr (dev, n) ↦ (
      ground (arith, n),
      ground (arith, n, told-stream_calls_alone P dev (wanted_streams t.protocol_version)),
    )
  ]

module _ {P : Parts} (lib : Libraries P) where
  on_message-Told :
      (a : Answers P) (sh : Shared P) (t : Task P) (m : Command P)
      → Told t.device (on_message lib a sh t m)
  unfolding on_message on_set_shot_delay on_zero on_add_control told apply_version apply_mode
  on_message-Told a sh t (from_service m) = on_service-Told a sh t m
  on_message-Told a sh t (set_shot_delay ms) = silent refl refl
  on_message-Told a sh t (zero_to trans point none) = silent (ground arith) (ground arith)
  on_message-Told a sh t (zero_to trans point (some te)) = silent (ground arith) (ground arith)
  on_message-Told a sh t (add_events_device dev v) = on_add_events-Told a sh t dev v
  on_message-Told a sh t (add_control_device dev) = updated (ground arith) refl
  on_message-Told a sh t remove_control_device = on_remove_control-Told sh t
  on_message-Told a sh t remove_events_device = on_remove_events-Told sh t

module _ {P : Parts} (lib : Libraries P) (on_report : OnReport P) where
  pub turn-Told :
      (a : Answers P) (sh : Shared P) (t : Task P) (w : Wake P)
      → Told t.device (turn lib on_report a sh t w)
  unfolding turn told on_new_delay streams_ended
  turn-Told a sh t (message none) = silent refl refl
  turn-Told a sh t (message (some m)) = on_message-Told lib a sh t m
  turn-Told a sh t (new_delay d) = silent refl refl
  turn-Told a sh t resume_due = let (d, n) = resume_streams-silent a t in silent d n
  turn-Told a sh t retry_due = let (d, n) = retry_streams-silent a t in silent d n
  turn-Told a sh t (report none) = silent (ground arith) (ground arith)
  turn-Told a sh t (report (some r)) = silent (ground arith) (
      ground (
        arith,
        told-emit_all P t.device
            (on_report t.device (lookup t.device.uuid sh.device_offsets) sh.screen_calibrations
              t.camera_models t.filters r).1,
      ))
