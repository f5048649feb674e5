-- ===== src/Server/StreamEvents/Tests.antt =====
-- Reports at numbers in place of the libraries' values, and the theorem at them.
use odyssey_desktop.Prelude.{
  ◌-◌, ℕ, ◌+◌, ◌%◌, ◌^◌, ◌*◌, ◌≡◌, refl, none, some, List, [], ◌∷◌, arith, ◌==◌,
}
use odyssey_desktop.Common.Events.{Vector3}
use odyssey_desktop.Server.StreamEvents.Reports.{
  Types, Cameras, FilterState, StreamReport, accel_report, impact_report, Libraries,
}
use odyssey_desktop.Server.StreamEvents.Handle.{handle_stream_event}
use odyssey_desktop.Server.StreamEvents.Elapsed.{Clock, handle_all, handle_all-time}

abbrev numbers : Types
numbers = record {
  Float = ℕ;
  Rotation = ℕ;
  Foveated = ℕ;
  Madgwick = ℕ;
  Camera = ℕ;
  Screens = ℕ;
  Marker = ℕ;
  Coordinate = ℕ;
  Packet = ℕ;
  VendorData = ℕ;
}

abbrev origin : Vector3 ℕ
origin = record { x = 0; y = 0; z = 0 }

-- The foveated state adds up the times that it is given.
abbrev clock : Libraries numbers
clock = record {
  neg = λ x. x;
  add = λ x y. x + y;
  mul = λ x y. x * y;
  zero_float = 0;
  one_float = 1;
  is_zero = λ c. c == 0;
  to_float = λ c. c;
  predict = λ f a g us. f + us;
  set_sample_period = λ m us. us;
  update_imu = λ m g a. m;
  madgwick_rotation = λ m. m;
  gravity = λ r. origin;
  observe_markers = λ f n w g s. f;
  raycast_update = λ s f o. (none, none);
  screen_id = λ f. 0;
  marker_of = λ c i p. p.x;
  vendor_packet = λ t v. v;
}

abbrev filters : FilterState numbers
filters = record {
  fv_state = 0;
  prev_accel_timestamp = some (2 ^ 32 - 100);
  madgwick = 0;
  orientation = 0;
}

abbrev cameras : Cameras numbers
cameras = record { nf = 0; wf = 0; stereo_iso = record { translation = origin; rotation = 0 } }

abbrev reports : List (StreamReport numbers)
reports =
    impact_report 7
    ∷ accel_report 400 origin origin
    ∷ accel_report 900 origin origin
    ∷ accel_report 900 origin origin
    ∷ []

-- Across the wrap-around 500 µs pass.
wrapped :
    (handle_stream_event clock none 0 cameras filters (accel_report 400 origin origin)).0.fv_state
    ≡ 500
unfolding handle_stream_event
wrapped = refl

abbrev clock-Clock : Clock clock
clock-Clock = record {
  time = λ f. f;
  time-predict = λ f a g us. refl;
  time-observe_markers = λ f n w g s. refl;
}

-- 500 µs to the first report, 500 to the second, and 10000 for its repetition.
handle_all-time_example :
    (n : ℕ) × ((handle_all clock none 0 cameras filters reports).fv_state ≡ 0 + (n + 10000))
    × ((2 ^ 32 - 100 + n) % 2 ^ 32 ≡ 900)
handle_all-time_example =
    handle_all-time clock none 0 cameras clock-Clock filters reports (2 ^ 32 - 100) refl
      (omega arith) (omega arith, (omega arith, (omega arith, tt)))
