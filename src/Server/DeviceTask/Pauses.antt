-- ===== src/Server/DeviceTask/Pauses.antt =====
-- The pauses of the sensor streams end, and the links that a running task keeps.
use odyssey_desktop.Prelude.{
  is_some, ◌≡◌, refl, ◌∙◌, true, false, Option-cases, inl, inr, List, [], ◌∷◌, arith, if◌then◌else◌,
}
use odyssey_desktop.Server.DeviceTask.State.{Parts, StreamKind, Answers, Shared, Task}
use odyssey_desktop.Server.DeviceTask.Streams.{
  is_empty, started, wanted_streams, restart, resume_streams,
}
use odyssey_desktop.Server.DeviceTask.Links.{Libraries}
use odyssey_desktop.Server.DeviceTask.Invariant.{Sound}
use odyssey_desktop.Server.DeviceTask.TurnSound.{loop-Sound}
use odyssey_desktop.Server.DeviceTask.Loop.{Wake, resume_due, OnReport, turn, loop}

empty_lem : (l : List StreamKind) → is_empty l ≡ true → l ≡ []
unfolding is_empty
empty_lem [] e = refl
empty_lem (k ∷ ks) e = cc

module _ {P : Parts} (lib : Libraries P) (on_report : OnReport P) where
  -- Let a sound task have paused its streams after whatever woke it up. Then the debounce timer is
  -- set, so it will fire; and when it fires, the pause is over, and streams that run again already go
  -- on; else, if the task has an events link, those streams run that start on it then.
  pub pause_ends :
      (sh : Shared P) (t : Task P) (ws : List (Answers P × Wake P)) (a : Answers P)
      → Sound t
      → (loop lib on_report sh t ws).ended ≡ false
      → (loop lib on_report sh t ws).task.streams_paused ≡ true
      → let r = loop lib on_report sh t ws in
        let t' = (turn lib on_report a r.shared r.task resume_due).task in
        (r.task.streams_resume_armed ≡ true)
        × (t'.streams_paused ≡ false)
        × ((t'.streams_resume_armed ≡ false)
            × (t'.sensor_streams ≡ (
                if r.task.has_sensor_streams
                then r.task.sensor_streams
                else (if is_some r.task.events_device
                    then started a.starts (wanted_streams r.task.protocol_version)
                    else []))))
  unfolding turn resume_streams restart
  pause_ends sh t ws a h n p =
      let r = loop lib on_report sh t ws in
      let g = loop-Sound lib on_report sh t ws h n in
      let armed : r.task.streams_resume_armed ≡ true = g.paused_armed ∙ p in
      elim (Option-cases r.task.events_device) [
        | inl e ↦ (
          armed,
          ground (arith, armed, e),
          (
            ground (arith, armed, e),
            ground (arith, armed, e, g.flagged, empty_lem r.task.sensor_streams),
          ),
        )
        | inr (dev, e) ↦
            (armed, ground (arith, armed, e), (ground (arith, armed, e), ground (arith, armed, e)))
      ]
