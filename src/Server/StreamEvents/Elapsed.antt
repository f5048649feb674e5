-- ===== src/Server/StreamEvents/Elapsed.antt =====
-- The times between the accelerometer reports, across the wrap-around of their `u32` timestamps.
use odyssey_desktop.Prelude.{
  Bool-cases, inl, inr, ◌*◌, ◌==◌, if◌then◌else◌, ℕ, ◌+◌, ◌%◌, ◌^◌, ◌<◌, ◌≡◌, refl, ap, ◌∙◌, Option,
  some, List, [], ◌∷◌, arith,
}
use odyssey_desktop.Common.Events.{Vector3}
use odyssey_desktop.Server.DeviceTask.State.{Isometry3}
use odyssey_desktop.Server.StreamEvents.Reports.{
  Types, Cameras, FilterState, StreamReport, accel_report, impact_report, battery_report,
  combined_report, poc_report, vendor_report, Libraries,
}
use odyssey_desktop.Server.StreamEvents.Handle.{
  elapsed, prediction_step, on_accel, on_markers, handle_stream_event,
}

pub elapsed_bound :
    (p ts : ℕ)
    → p < 2 ^ 32
    → ts < 2 ^ 32
    → ((p + elapsed (some p) ts) % 2 ^ 32 ≡ ts) × (elapsed (some p) ts < 2 ^ 32)
unfolding elapsed
elapsed_bound p ts hp ht = (omega (arith, hp, ht), omega (arith, hp, ht))

-- The duration is the time that has passed, and 10000 where none has.
prediction_step-elapsed :
    (p ts : ℕ)
    → p < 2 ^ 32
    → ts < 2 ^ 32
    → prediction_step (elapsed (some p) ts)
      ≡ elapsed (some p) ts + 10000 * (if ts == p then 1 else 0)
unfolding elapsed prediction_step
prediction_step-elapsed p ts hp ht = elim (Bool-cases (ts == p)) [
  | inl e ↦ ground (arith, e, hp, ht)
  | inr e ↦ ground (arith, e, hp, ht)
]

add_times :
    (p e total ts last : ℕ)
    → (p + e) % 2 ^ 32 ≡ ts
    → (ts + total) % 2 ^ 32 ≡ last
    → (p + (e + total)) % 2 ^ 32 ≡ last
add_times p e total ts last h k = omega (arith, h, k)

module _ {K : Types} where
  abbrev pub AllBelow : List (StreamReport K) → Type 0
  AllBelow [] = Unit
  AllBelow (accel_report ts a g ∷ rs) = (ts < 2 ^ 32) × AllBelow rs
  AllBelow (impact_report ts ∷ rs) = AllBelow rs
  AllBelow (battery_report p c ∷ rs) = AllBelow rs
  AllBelow (combined_report n w ∷ rs) = AllBelow rs
  AllBelow (poc_report n ∷ rs) = AllBelow rs
  AllBelow (vendor_report t v ∷ rs) = AllBelow rs

  -- The timestamp of the last accelerometer report, or `p`.
  abbrev pub last_timestamp : ℕ → List (StreamReport K) → ℕ
  last_timestamp p [] = p
  last_timestamp p (accel_report ts a g ∷ rs) = last_timestamp ts rs
  last_timestamp p (impact_report ts ∷ rs) = last_timestamp p rs
  last_timestamp p (battery_report b c ∷ rs) = last_timestamp p rs
  last_timestamp p (combined_report n w ∷ rs) = last_timestamp p rs
  last_timestamp p (poc_report n ∷ rs) = last_timestamp p rs
  last_timestamp p (vendor_report t v ∷ rs) = last_timestamp p rs

  -- How many accelerometer reports have the timestamp of the one before them, the first of them `p`.
  abbrev pub repeats : ℕ → List (StreamReport K) → ℕ
  repeats p [] = 0
  repeats p (accel_report ts a g ∷ rs) = (if ts == p then 1 else 0) + repeats ts rs
  repeats p (impact_report ts ∷ rs) = repeats p rs
  repeats p (battery_report b c ∷ rs) = repeats p rs
  repeats p (combined_report n w ∷ rs) = repeats p rs
  repeats p (poc_report n ∷ rs) = repeats p rs
  repeats p (vendor_report t v ∷ rs) = repeats p rs

-- A clock of the foveated state: `predict` sets it forward by its duration, and nothing else moves it.
pub record Clock {K : Types} (lib : Libraries K) : Type 0 where
  pub time : K.Foveated → ℕ
  pub time-predict :
      (f : K.Foveated) (a g : Vector3 K.Float) (us : ℕ) → time (lib.predict f a g us) ≡ time f + us
  pub time-observe_markers :
      (f : K.Foveated) (n w : List K.Marker) (g : Vector3 K.Float) (s : K.Screens)
      → time (lib.observe_markers f n w g s) ≡ time f

module _ {K : Types} (lib : Libraries K) (offset : Option (Isometry3 K.Float K.Rotation))
    (screens : K.Screens) (cameras : Cameras K) where
  -- The filters after the reports.
  unfoldable pub handle_all : FilterState K → List (StreamReport K) → FilterState K
  unfolding handle_stream_event
  handle_all s [] = s
  handle_all s (r ∷ rs) = handle_all (handle_stream_event lib offset screens cameras s r).0 rs

  accel_time :
      (clock : Clock lib) (s : FilterState K) (p ts : ℕ) (a g : Vector3 K.Float)
      → s.prev_accel_timestamp ≡ some p
      → p < 2 ^ 32
      → ts < 2 ^ 32
      → clock.time (on_accel lib offset screens s ts a g).0.fv_state
        ≡ clock.time s.fv_state + (elapsed (some p) ts + 10000 * (if ts == p then 1 else 0))
  unfolding on_accel
  accel_time clock s p ts a g e hp ht =
      clock.time-predict _ _ _ _
      ∙ ap (λ o. clock.time s.fv_state + prediction_step (elapsed o ts)) e
      ∙ ap (λ n. clock.time s.fv_state + n) (prediction_step-elapsed p ts hp ht)

  -- Let the foveated state have a clock that `predict` sets forward by its duration, let the last
  -- accelerometer report have come at `p`, and let the timestamps of those to come fit 32 bits. Then,
  -- whatever reports come between, the handler sets the clock forward by the time from `p` to the
  -- last of them, modulo 2^32, so a wrap-around loses none, and by 10000 more for each report that has
  -- the timestamp of the one before it.
  pub handle_all-time :
      (clock : Clock lib) (s : FilterState K) (rs : List (StreamReport K)) (p : ℕ)
      → s.prev_accel_timestamp ≡ some p
      → p < 2 ^ 32
      → AllBelow rs
      → (n : ℕ) × (clock.time (handle_all s rs).fv_state
          ≡ clock.time s.fv_state + (n + 10000 * repeats p rs))
        × ((p + n) % 2 ^ 32 ≡ last_timestamp p rs)
  unfolding handle_all on_markers
  handle_all-time clock s [] p e h a = (0, omega arith, omega (arith, h))
  handle_all-time clock s (accel_report ts x g ∷ rs) p e h a =
      let s' = (handle_stream_event lib offset screens cameras s (accel_report ts x g)).0 in
      let (n, t, l) = handle_all-time clock s' rs ts refl a.0 a.1 in
      (
        elapsed (some p) ts + n,
        omega (arith, t, accel_time clock s p ts x g e h a.0),
        add_times p (elapsed (some p) ts) n ts (last_timestamp ts rs) (elapsed_bound p ts h a.0).0
            l,
      )
  handle_all-time clock s (impact_report ts ∷ rs) p e h a = handle_all-time clock s rs p e h a
  handle_all-time clock s (battery_report b c ∷ rs) p e h a = handle_all-time clock s rs p e h a
  handle_all-time clock s (combined_report nf wf ∷ rs) p e h a =
      let s' = (handle_stream_event lib offset screens cameras s (combined_report nf wf)).0 in
      let (n, t, l) = handle_all-time clock s' rs p e h a in
      (n, t ∙ ap (λ c. c + (n + 10000 * repeats p rs)) (clock.time-observe_markers _ _ _ _ _), l)
  handle_all-time clock s (poc_report nf ∷ rs) p e h a =
      let s' = (handle_stream_event lib offset screens cameras s (poc_report nf)).0 in
      let (n, t, l) = handle_all-time clock s' rs p e h a in
      (n, t ∙ ap (λ c. c + (n + 10000 * repeats p rs)) (clock.time-observe_markers _ _ _ _ _), l)
  handle_all-time clock s (vendor_report t v ∷ rs) p e h a = handle_all-time clock s rs p e h a
