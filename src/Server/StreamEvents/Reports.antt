-- ===== src/Server/StreamEvents/Reports.antt =====
-- The reports of the sensor streams, the filters of a device task, and the vision libraries (ats_cv,
-- ahrs, opencv_ros_camera) with the arithmetic of `f32`, which are parameters.
use odyssey_desktop.Prelude.{ℕ, Bool, Option, List}
use odyssey_desktop.Common.Events.{Vector2, Vector3, Matrix3}
use odyssey_desktop.Server.DeviceTask.State.{Isometry3}

-- The types of the libraries: `f32`, rotations, the foveated state, the Madgwick filter, camera
-- models, screens, markers, the coordinates of a point, packets and their vendor payloads.
pub record Types : Type 1 where
  pub Float : Type 0
  pub Rotation : Type 0
  pub Foveated : Type 0
  pub Madgwick : Type 0
  pub Camera : Type 0
  pub Screens : Type 0
  pub Marker : Type 0
  pub Coordinate : Type 0
  pub Packet : Type 0
  pub VendorData : Type 0

module _ (K : Types) where
  pub record Point : Type 0 where
    pub x : K.Coordinate
    pub y : K.Coordinate

  pub record Cameras : Type 0 where
    pub nf : K.Camera
    pub wf : K.Camera
    pub stereo_iso : Isometry3 K.Float K.Rotation

  -- The filters that are local to a device task.
  pub record FilterState : Type 0 where
    pub fv_state : K.Foveated
    pub prev_accel_timestamp : Option ℕ
    pub madgwick : K.Madgwick
    pub orientation : K.Rotation

  pub data StreamReport : Type 0 where
    accel_report : ℕ → Vector3 K.Float → Vector3 K.Float → StreamReport
    impact_report : ℕ → StreamReport
    battery_report : ℕ → Bool → StreamReport
    combined_report : List Point → List Point → StreamReport
    poc_report : List Point → StreamReport
    vendor_report : ℕ → K.VendorData → StreamReport

  pub record Libraries : Type 0 where
    pub neg : K.Float → K.Float
    pub add : K.Float → K.Float → K.Float
    pub mul : K.Float → K.Float → K.Float
    pub zero_float : K.Float
    pub one_float : K.Float
    pub is_zero : K.Coordinate → Bool
    pub to_float : K.Coordinate → K.Float
    -- `predict`, with the duration in microseconds.
    pub predict : K.Foveated → Vector3 K.Float → Vector3 K.Float → ℕ → K.Foveated
    -- The sample period, in microseconds, and an update.
    pub set_sample_period : K.Madgwick → ℕ → K.Madgwick
    pub update_imu : K.Madgwick → Vector3 K.Float → Vector3 K.Float → K.Madgwick
    pub madgwick_rotation : K.Madgwick → K.Rotation
    -- The downward direction in the frame of the device, normalised.
    pub gravity : K.Rotation → Vector3 K.Float
    pub observe_markers :
        K.Foveated → List K.Marker → List K.Marker → Vector3 K.Float → K.Screens → K.Foveated
    pub raycast_update :
        K.Screens
        → K.Foveated
        → Option (Isometry3 K.Float K.Rotation)
        → Option (Matrix3 K.Float × Vector3 K.Float) × Option (Vector2 K.Float × K.Float)
    pub screen_id : K.Foveated → ℕ
    -- `undistort_points` and `to_normalized_image_coordinates` of one point.
    pub marker_of : K.Camera → Option (Isometry3 K.Float K.Rotation) → Vector2 K.Float → K.Marker
    pub vendor_packet : ℕ → K.VendorData → K.Packet
