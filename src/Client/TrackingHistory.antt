-- ===== src/Client/TrackingHistory.antt =====
-- odyssey_hub_client/src/tracking_history.rs: the last tracking events, in a ring of slots.
pub mod Refine
pub mod Reads
pub mod Closest
pub mod Tests
use odyssey_desktop.Prelude.{
  ℕ, zero, suc, ◌+◌, ◌-◌, ◌%◌, ◌^◌, Bool, true, false, ◌&&◌, not, Option, none, some, List, [], ◌∷◌,
  ltb, ◌==◌, if◌then◌else◌, length, get_elem?, set, replicate, Outcome, done, panic, ◌>>=◌, unwrap,
}
use odyssey_desktop.Common.Events.{TrackingEvent}

abbrev pub u32_max : ℕ
u32_max = 2 ^ 32 - 1

-- `u32::abs_diff`
abbrev pub abs_diff : ℕ → ℕ → ℕ
abs_diff a b = if ltb a b then b - a else a - b

pub record TrackingHistory (F : Type 0) : Type 0 where
  pub buffer : List (Option (TrackingEvent F))
  pub head : ℕ
  pub full : Bool
  pub capacity : ℕ

module _ {F : Type 0} where
  pub new : ℕ → TrackingHistory F
  new capacity = record {
    buffer = replicate capacity none;
    head = 0;
    full = false;
    capacity = capacity;
  }

  -- A write past the buffer panics, and so would `%` by a zero capacity.
  pub push : TrackingHistory F → TrackingEvent F → Outcome (TrackingHistory F)
  push h event =
      if ltb h.head (length h.buffer) && not (h.capacity == 0)
      then (let head = (h.head + 1) % h.capacity in
          done (record h {
            buffer = set h.buffer h.head (some event);
            head = head;
            full = if head == 0 then true else h.full;
          }))
      else panic

  -- A client's pushes in order.
  pub push_all : TrackingHistory F → List (TrackingEvent F) → Outcome (TrackingHistory F)
  push_all h [] = done h
  push_all h (event ∷ events) = push h event >>= λ h'. push_all h' events

  pub latest : TrackingHistory F → Outcome (Option (TrackingEvent F))
  latest h =
      if h.head == 0 && not h.full
      then done none
      else if h.capacity == 0
      then panic
      else unwrap (get_elem? h.buffer ((h.head + h.capacity - 1) % h.capacity))

  -- The loop body: the slot's event becomes the best one if it is strictly closer.
  pub closer :
      ℕ → Option (TrackingEvent F) × ℕ → Option (TrackingEvent F) → Option (TrackingEvent F) × ℕ
  closer timestamp (best, best_diff) none = (best, best_diff)
  closer timestamp (best, best_diff) (some ev) =
      let diff = abs_diff (TrackingEvent.timestamp ev) timestamp in
      if ltb diff best_diff then (some ev, diff) else (best, best_diff)

  -- The loop over `i`, with `k` rounds left.
  pub closest_from :
      List (Option (TrackingEvent F))
      → ℕ
      → ℕ
      → ℕ
      → Option (TrackingEvent F) × ℕ
      → Outcome (Option (TrackingEvent F))
  closest_from buffer timestamp zero i state = done state.0
  closest_from buffer timestamp (suc k) i state = do
    slot ← unwrap (get_elem? buffer i)
    closest_from buffer timestamp k (i + 1) (closer timestamp state slot)

  pub get_closest : TrackingHistory F → ℕ → Outcome (Option (TrackingEvent F))
  get_closest h timestamp =
      let len = if h.full then h.capacity else h.head in
      closest_from h.buffer timestamp len 0 (none, u32_max)
