-- ===== src/Server/DeviceTask/Loop.antt =====
-- The loop of a device task: what wakes it up, one turn, and a run to its end. The order in which
-- the arms of `select!` are polled is left open: any arm whose guard holds may be taken.
use odyssey_desktop.Prelude.{
  ℕ, ◌%◌, ◌^◌, Bool, false, Option, none, some, List, [], ◌∷◌, ◌++◌, Bytes, bytes_inst,
  if◌then◌else◌,
}
use odyssey_desktop.Prelude.Assoc.{lookup, insert}
use odyssey_desktop.Common.Device.{Device, Version}
use odyssey_desktop.Common.Events.{DeviceEventKind, device_event}
use odyssey_desktop.Server.Hub.{disconnect}
use odyssey_desktop.Server.ShotDelays.{ShotDelays}
use odyssey_desktop.Server.DeviceTask.State.{
  Parts, Command, from_service, set_shot_delay, zero_to, add_events_device, add_control_device,
  remove_control_device, remove_events_device, Isometry3, Effect, call, emit, tell, Answers, Shared,
  Task, Turn, read_all_config, read_all_config_ctrl,
}
use odyssey_desktop.Server.DeviceTask.Streams.{
  restart, resume_streams, retry_streams, streams_ended,
}
use odyssey_desktop.Server.DeviceTask.Requests.{next, break, on_service}
use odyssey_desktop.Server.DeviceTask.Links.{
  Libraries, apply_config, on_add_events, on_add_control, on_remove_control, on_remove_events,
  on_set_shot_delay, on_zero,
}

-- What wakes the loop up. The messages are `none` when their channel is closed; so is a report when
-- the streams are at their end.
pub data Wake (P : Parts) : Type 0 where
  message : Option (Command P) → Wake P
  new_delay : ℕ → Wake P
  resume_due retry_due : Wake P
  report : Option P.Report → Wake P

-- `handle_stream_event`: the filters afterwards and the events that are sent.
abbrev pub OnReport : Parts → Type 0
OnReport P =
    Device
    → Option (Isometry3 P.Float P.Rotation)
    → P.Screens
    → P.Config
    → P.Filters
    → P.Report
    → P.Filters × List (DeviceEventKind P.Float P.Packet)

-- What the task is started with.
pub record Start (P : Parts) : Type 0 where
  pub control_link : Option P.VmDevice
  pub events_link : Option P.VmDevice
  pub device_meta : Device
  pub events_protocol : Version
  pub with_hub : Bool

module _ {P : Parts} where
  abbrev pub emit_all : Device → List (DeviceEventKind P.Float P.Packet) → List (Effect P)
  emit_all d [] = []
  emit_all d (k ∷ ks) = emit (device_event d k) ∷ emit_all d ks

  unfoldable pub on_new_delay : Shared P → Task P → ℕ → Turn P
  on_new_delay sh t d =
      next
        (record sh {
          shot_delays = record (sh.shot_delays) {
            device_shot_delays =
                insert t.device.uuid (d % 2 ^ 16) sh.shot_delays.device_shot_delays;
          };
        })
        (record t { current_shot_delay = d }) []

module _ {P : Parts} (lib : Libraries P) where
  unfoldable pub on_message : Answers P → Shared P → Task P → Command P → Turn P
  unfolding on_service on_add_events on_add_control on_remove_control on_remove_events
      on_set_shot_delay on_zero
  on_message a sh t (from_service m) = on_service a sh t m
  on_message a sh t (set_shot_delay ms) = on_set_shot_delay lib sh t ms
  on_message a sh t (zero_to trans point te) = on_zero lib sh t trans point te
  on_message a sh t (add_events_device dev v) = on_add_events a sh t dev v
  on_message a sh t (add_control_device dev) = on_add_control a sh t dev
  on_message a sh t remove_control_device = on_remove_control sh t
  on_message a sh t remove_events_device = on_remove_events sh t

  -- The delay of the device, from the watch channel that is there or a new one.
  unfoldable pub subscribe_at_start : ShotDelays P.Watch → Bytes → ShotDelays P.Watch × ℕ
  subscribe_at_start s uuid = elim (lookup uuid s.shot_delay_watch) [
    | some tx ↦
        let w = lib.watch_api.subscribe tx in
        (record s { shot_delay_watch = insert uuid w s.shot_delay_watch }, lib.watch_api.borrow w)
    | none ↦
        let cur : ℕ = elim (lookup uuid s.device_shot_delays) [ none ↦ 0 | some v ↦ v ] in
        let w = lib.watch_api.send (lib.watch_api.channel cur) cur in
        (record s { shot_delay_watch = insert uuid w s.shot_delay_watch }, lib.watch_api.borrow w)
  ]

  -- The camera models at the start, from the events link or else the control link.
  unfoldable pub first_config : Answers P → Start P → P.Config × List (Effect P)
  unfolding apply_config
  first_config a s = elim s.events_link [
    | some dev ↦ (apply_config a.all_config lib.dummy_config, call dev read_all_config ∷ [])
    | none ↦ elim s.control_link [
      | some dev ↦ (apply_config a.all_config lib.dummy_config, call dev read_all_config_ctrl ∷ [])
      | none ↦ (lib.dummy_config, [])
    ]
  ]

  unfoldable pub start : Answers P → Shared P → Start P → Turn P
  unfolding subscribe_at_start first_config restart
  start a sh s =
      let (delays, delay) = subscribe_at_start sh.shot_delays s.device_meta.uuid in
      let (config, out) = first_config a s in
      let t : Task P = record {
        control_device = s.control_link;
        events_device = s.events_link;
        has_hub = s.with_hub;
        device = s.device_meta;
        camera_models = config;
        filters = lib.new_filters;
        sensor_streams = [];
        has_sensor_streams = false;
        streams_paused = false;
        streams_resume_armed = false;
        pairing_in_progress = false;
        protocol_version = s.events_protocol;
        current_shot_delay = delay;
      } in
      let sh' = record sh { shot_delays = delays } in
      elim s.events_link [
        | none ↦ next sh' t out
        | some dev ↦ let (t', calls) = restart a dev t in next sh' t' (out ++ calls)
      ]

module _ {P : Parts} (lib : Libraries P) (on_report : OnReport P) where
  unfoldable pub turn : Answers P → Shared P → Task P → Wake P → Turn P
  unfolding on_message on_new_delay resume_streams retry_streams streams_ended
  turn a sh t (message none) = break sh t []
  turn a sh t (message (some m)) = on_message lib a sh t m
  turn a sh t (new_delay d) = on_new_delay sh t d
  turn a sh t resume_due = let (t', out) = resume_streams a t in next sh t' out
  turn a sh t retry_due = let (t', out) = retry_streams a t in next sh t' out
  turn a sh t (report none) = next sh (if t.has_sensor_streams then streams_ended t else t) []
  turn a sh t (report (some r)) =
      if t.has_sensor_streams
      then (let (f, ks) =
            on_report t.device (lookup t.device.uuid sh.device_offsets) sh.screen_calibrations
              t.camera_models t.filters r in
          next sh (record t { filters = f }) (emit_all t.device ks))
      else next sh t []

  -- The loop on what wakes it up, with the answers of the links; when it breaks, the device is
  -- disconnected and the rest is not looked at.
  unfoldable pub loop : Shared P → Task P → List (Answers P × Wake P) → Turn P
  unfolding turn
  loop sh t [] = next sh t []
  loop sh t ((a, w) ∷ ws) =
      let r = turn a sh t w in
      let rest = loop r.shared r.task ws in
      if r.ended
      then break r.shared r.task (r.effects ++ tell (disconnect r.task.device) ∷ [])
      else record rest { effects = r.effects ++ rest.effects }

  unfoldable pub run_task : Answers P → Shared P → Start P → List (Answers P × Wake P) → Turn P
  unfolding start loop
  run_task a sh s ws =
      let r = start lib a sh s in
      let rest = loop r.shared r.task ws in record rest { effects = r.effects ++ rest.effects }
