-- ===== src/Server/StreamEvents/Handle.antt =====
-- `handle_stream_event` of device_tasks.rs, one function for each kind of report that has more than
-- an event to send.
use odyssey_desktop.Prelude.{
  ℕ, ◌+◌, ◌-◌, ◌%◌, ◌^◌, ◌&&◌, Option, none, some, List, [], ◌∷◌, ◌==◌, if◌then◌else◌,
}
use odyssey_desktop.Common.Events.{
  Vector2, Vector3, DeviceEventKind, accelerometer_event, tracking_event, impact_event,
  battery_event, packet_event,
}
use odyssey_desktop.Server.DeviceTask.State.{Isometry3}
use odyssey_desktop.Server.StreamEvents.Reports.{
  Types, Point, Cameras, FilterState, StreamReport, accel_report, impact_report, battery_report,
  combined_report, poc_report, vendor_report, Libraries,
}
use odyssey_desktop.Server.StreamEvents.Poses.{negated_xzy, transform_pose_for_client}

-- `report.timestamp.wrapping_sub(*p)` of two `u32`, and 0 for the first report.
unfoldable pub elapsed : Option ℕ → ℕ → ℕ
elapsed none timestamp = 0
elapsed (some p) timestamp = (timestamp + 2 ^ 32 - p) % 2 ^ 32

-- The duration for the prediction, in microseconds.
unfoldable pub prediction_step : ℕ → ℕ
prediction_step elapsed_us = if elapsed_us == 0 then 10000 else elapsed_us

module _ {K : Types} (lib : Libraries K) where
  -- The points that are not at the origin, as `f32`.
  unfoldable pub seen_points : List (Point K) → List (Vector2 K.Float)
  seen_points [] = []
  seen_points (p ∷ ps) =
      let rest = seen_points ps in
      if lib.is_zero p.x && lib.is_zero p.y
      then rest
      else record { x = lib.to_float p.x; y = lib.to_float p.y } ∷ rest

  unfoldable pub build_markers_from_points :
      List (Vector2 K.Float) → K.Camera → Option (Isometry3 K.Float K.Rotation) → List K.Marker
  build_markers_from_points [] camera iso = []
  build_markers_from_points (p ∷ ps) camera iso =
      lib.marker_of camera iso p ∷ build_markers_from_points ps camera iso

  abbrev pub Sent : Type 0
  Sent = List (DeviceEventKind K.Float K.Packet)

  unfoldable pub on_accel :
      Option (Isometry3 K.Float K.Rotation)
      → K.Screens
      → FilterState K
      → ℕ
      → Vector3 K.Float
      → Vector3 K.Float
      → FilterState K × Sent
  unfolding elapsed prediction_step negated_xzy transform_pose_for_client
  on_accel offset screens s ts accel_v gyro_v =
      let elapsed_us = elapsed s.prev_accel_timestamp ts in
      let fv =
        lib.predict s.fv_state (negated_xzy lib accel_v) (negated_xzy lib gyro_v)
          (prediction_step elapsed_us) in
      let m0 =
        if elapsed_us == 0 then s.madgwick else lib.set_sample_period s.madgwick elapsed_us in
      let m = lib.update_imu m0 gyro_v accel_v in
      let s' : FilterState K = record {
        fv_state = fv;
        prev_accel_timestamp = some ts;
        madgwick = m;
        orientation = lib.madgwick_rotation m;
      } in
      let first = accelerometer_event (record {
        timestamp = ts;
        accel = accel_v;
        gyro = gyro_v;
        euler_angles = record { x = lib.zero_float; y = lib.zero_float; z = lib.zero_float };
      }) in
      let (pose, aim) = lib.raycast_update screens fv offset in
      (
        s',
        elim pose [
          | none ↦ first ∷ []
          | some (rotmat, transvec) ↦ elim aim [
            | none ↦ first ∷ []
            | some (pt, d) ↦
                first
                ∷ tracking_event (record {
                  timestamp = ts;
                  aimpoint = pt;
                  pose = transform_pose_for_client lib rotmat transvec;
                  distance = d;
                  screen_id = lib.screen_id fv;
                })
                ∷ []
          ]
        ],
      )

  -- Markers are observed, and a tracking event is sent if the raycast gives a pose; without a point
  -- its aimpoint and distance are zero.
  unfoldable pub on_markers :
      Option (Isometry3 K.Float K.Rotation)
      → K.Screens
      → FilterState K
      → List K.Marker
      → List K.Marker
      → FilterState K × Sent
  unfolding transform_pose_for_client
  on_markers offset screens s nf_markers wf_markers =
      let fv =
        lib.observe_markers s.fv_state nf_markers wf_markers (lib.gravity s.orientation) screens in
      let (pose, aim) = lib.raycast_update screens fv offset in
      let origin : Vector2 K.Float = record { x = lib.zero_float; y = lib.zero_float } in
      let (aimpoint, distance) : Vector2 K.Float × K.Float = elim aim [
        | none ↦ (origin, lib.zero_float)
        | some a ↦ a
      ] in
      (
        record s { fv_state = fv },
        elim pose [
          | none ↦ []
          | some (rotmat, transvec) ↦
              tracking_event (record {
                timestamp = 0;
                aimpoint = aimpoint;
                pose = transform_pose_for_client lib rotmat transvec;
                distance = distance;
                screen_id = lib.screen_id fv;
              })
              ∷ []
        ],
      )

  unfoldable pub handle_stream_event :
      Option (Isometry3 K.Float K.Rotation)
      → K.Screens
      → Cameras K
      → FilterState K
      → StreamReport K
      → FilterState K × Sent
  unfolding on_accel on_markers seen_points build_markers_from_points
  handle_stream_event offset screens cameras s (accel_report ts accel_v gyro_v) =
      on_accel offset screens s ts accel_v gyro_v
  handle_stream_event offset screens cameras s (impact_report ts) =
      (s, impact_event (record { timestamp = ts }) ∷ [])
  handle_stream_event offset screens cameras s (battery_report percent charging) =
      (s, battery_event (record { percent = percent; charging = charging }) ∷ [])
  handle_stream_event offset screens cameras s (combined_report nf_points wf_points) =
      on_markers offset screens s
        (build_markers_from_points (seen_points nf_points) cameras.nf none)
        (build_markers_from_points (seen_points wf_points) cameras.wf (some cameras.stereo_iso))
  handle_stream_event offset screens cameras s (poc_report points) =
      on_markers offset screens s (build_markers_from_points (seen_points points) cameras.nf none)
        []
  handle_stream_event offset screens cameras s (vendor_report tag vendor) =
      (s, packet_event (lib.vendor_packet tag vendor) ∷ [])
