-- ===== src/Client/TrackingHistory/Tests.antt =====
-- A history over a stand-in for `f32`, and the theorems at it.
use odyssey_desktop.Prelude.{ℕ, ◌≡◌, refl, true, Option, some, [], ◌∷◌, arith, done, panic}
use odyssey_desktop.Common.Events.{TrackingEvent}
use odyssey_desktop.Client.TrackingHistory.{
  TrackingHistory, new, push, push_all, closer, closest_from, get_closest,
}
use odyssey_desktop.Client.TrackingHistory.Refine.{Holds, push-Holds, push_all-last_n}
use odyssey_desktop.Client.TrackingHistory.Closest.{IsClosest, get_closest-IsClosest}

abbrev event_at : ℕ → TrackingEvent ℕ
event_at t = record {
  timestamp = t;
  aimpoint = record { x = 1; y = 2 };
  pose = record {
    rotation = record {
      m11 = 1;
      m12 = 0;
      m13 = 0;
      m21 = 0;
      m22 = 1;
      m23 = 0;
      m31 = 0;
      m32 = 0;
      m33 = 1;
    };
    translation = record { x = 0; y = 0; z = 3 };
  };
  distance = 3;
  screen_id = 0;
}

-- Two slots after three pushes: the third event overwrote the first.
abbrev wrapped : TrackingHistory ℕ
wrapped = record {
  buffer = some (event_at 30) ∷ some (event_at 20) ∷ [];
  head = 1;
  full = true;
  capacity = 2;
}

push_all-wrapped : push_all (new 2) (event_at 10 ∷ event_at 20 ∷ event_at 30 ∷ []) ≡ done wrapped
unfolding push_all push new
push_all-wrapped = refl

push_empty : push (new 0) (event_at 10) ≡ panic
unfolding push new
push_empty = refl

get_closest-wrapped : get_closest wrapped 22 ≡ done (some (event_at 20))
unfolding get_closest closest_from closer
get_closest-wrapped = refl

wrapped-Holds : Holds wrapped (event_at 20 ∷ event_at 30 ∷ [])
wrapped-Holds = record { slots_hold = refl; room = refl; head_in = omega arith }

push-Holds_example :
    (h : TrackingHistory ℕ) × (push wrapped (event_at 40) ≡ done h)
    × Holds h (event_at 30 ∷ event_at 40 ∷ [])
    × (h.capacity ≡ 2)
push-Holds_example = push-Holds wrapped (event_at 20 ∷ event_at 30 ∷ []) (event_at 40) wrapped-Holds

push_all-last_n_example :
    (h : TrackingHistory ℕ) × (push_all (new 2) (event_at 10 ∷ event_at 20 ∷ event_at 30 ∷ [])
      ≡ done h)
    × Holds h (event_at 20 ∷ event_at 30 ∷ [])
push_all-last_n_example =
    push_all-last_n 2 (event_at 10 ∷ event_at 20 ∷ event_at 30 ∷ []) (omega arith)

get_closest-IsClosest_example :
    (r : Option (TrackingEvent ℕ)) × (get_closest wrapped 22 ≡ done r)
    × IsClosest 22 (event_at 20 ∷ event_at 30 ∷ []) r
get_closest-IsClosest_example =
    get_closest-IsClosest 22 wrapped (event_at 20 ∷ event_at 30 ∷ []) wrapped-Holds
