-- ===== src/Server/DeviceTask/Streams.antt =====
-- The sensor streams of a device task: starting them, pausing them for a batch of register or
-- config calls, and the two timers that start them again.
use odyssey_desktop.Prelude.{
  Bool, true, false, not, ◌&&◌, ◌||◌, none, some, List, [], ◌∷◌, ◌==◌, ltb, if◌then◌else◌,
}
use odyssey_desktop.Common.Device.{Version}
use odyssey_desktop.Server.DeviceTask.State.{
  Parts, StreamKind, combined_markers, poc_markers, accel, impact, battery, Effect, call,
  start_stream, clear_all_streams, Answers, Task,
}

-- `a > b` of two `[u16; 3]`: the first place where they differ decides.
unfoldable pub version_gt : Version → Version → Bool
version_gt a b =
    ltb b.major a.major
    || (a.major == b.major && (ltb b.minor a.minor || (a.minor == b.minor && ltb b.patch a.patch)))

-- `a >= b`
unfoldable pub version_ge : Version → Version → Bool
unfolding version_gt
version_ge a b = not (version_gt b a)

abbrev pub battery_version : Version
battery_version = record { major = 0; minor = 1; patch = 1 }

-- The streams that are asked for, in this order.
unfoldable pub wanted_streams : Version → List StreamKind
unfolding version_ge
wanted_streams protocol_version =
    combined_markers
    ∷ poc_markers
    ∷ accel
    ∷ impact
    ∷ (if version_ge protocol_version battery_version then battery ∷ [] else [])

-- Those of them that start.
unfoldable pub started : (StreamKind → Bool) → List StreamKind → List StreamKind
started starts [] = []
started starts (k ∷ ks) = if starts k then k ∷ started starts ks else started starts ks

unfoldable pub is_empty : List StreamKind → Bool
is_empty [] = true
is_empty (k ∷ ks) = false

module _ {P : Parts} where
  unfoldable pub stream_calls : P.VmDevice → List StreamKind → List (Effect P)
  stream_calls dev [] = []
  stream_calls dev (k ∷ ks) = call dev (start_stream k) ∷ stream_calls dev ks

  unfoldable pub start_sensor_streams :
      Answers P → P.VmDevice → Version → List StreamKind × List (Effect P)
  unfolding wanted_streams started stream_calls
  start_sensor_streams a dev protocol_version = (
    started a.starts (wanted_streams protocol_version),
    stream_calls dev (wanted_streams protocol_version),
  )

  -- The streams are started on `dev`, and whether any did is noted.
  unfoldable pub restart : Answers P → P.VmDevice → Task P → Task P × List (Effect P)
  unfolding start_sensor_streams is_empty
  restart a dev t =
      let (streams, out) = start_sensor_streams a dev t.protocol_version in
      (record t { sensor_streams = streams; has_sensor_streams = not (is_empty streams) }, out)

  -- Before a register or config call: running streams are dropped and disabled on the device.
  unfoldable pub pause_streams : P.VmDevice → Task P → Task P × List (Effect P)
  pause_streams dev t =
      if t.has_sensor_streams
      then (
        record t { streams_paused = true; sensor_streams = []; has_sensor_streams = false },
        call dev clear_all_streams ∷ [],
      )
      else (t, [])

  -- After it: the debounce timer is set (again).
  unfoldable pub arm_resume : Task P → Task P
  arm_resume t = if t.streams_paused then record t { streams_resume_armed = true } else t

  -- The arm of the debounce timer, under its guard.
  unfoldable pub resume_streams : Answers P → Task P → Task P × List (Effect P)
  unfolding restart
  resume_streams a t =
      if t.streams_resume_armed
      then (let t' = record t { streams_resume_armed = false; streams_paused = false } in
          if t.has_sensor_streams
          then (t', [])
          else elim t.events_device [ none ↦ (t', []) | some dev ↦ restart a dev t' ])
      else (t, [])

  -- The arm of the retry timer, under its guard.
  unfoldable pub retry_streams : Answers P → Task P → Task P × List (Effect P)
  unfolding restart
  retry_streams a t =
      if not t.has_sensor_streams && not t.streams_paused
      then elim t.events_device [ none ↦ (t, []) | some dev ↦ restart a dev t ]
      else (t, [])

  -- The streams are at their end.
  unfoldable pub streams_ended : Task P → Task P
  streams_ended t = record t { has_sensor_streams = false; sensor_streams = [] }
