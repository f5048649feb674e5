-- ===== src/Server/DeviceTask/Unplugged.antt =====
-- A device task ends when both its links have been removed.
use odyssey_desktop.Prelude.{
  ◌≡◌, refl, ◌∙◌, true, false, Bool-cases, none, some, inl, inr, List, [], ◌∷◌, arith,
}
use odyssey_desktop.Server.DeviceTask.State.{
  Parts, Answers, Shared, Task, from_service, set_shot_delay, zero_to, add_events_device,
  add_control_device, remove_control_device, remove_events_device,
}
use odyssey_desktop.Server.DeviceTask.Streams.{streams_ended}
use odyssey_desktop.Server.DeviceTask.Links.{
  Libraries, on_remove_control, on_remove_events, on_set_shot_delay, on_zero, without_control,
  has_independent_ble_events,
}
use odyssey_desktop.Server.DeviceTask.Loop.{
  Wake, message, new_delay, resume_due, retry_due, report, OnReport, on_message, on_new_delay, turn,
  loop,
}
use odyssey_desktop.Server.DeviceTask.LoopSteps.{loop_ended, loop_goes_on}
use odyssey_desktop.Server.DeviceTask.Ends.{
  on_service-SameLinks, resume_streams-SameLinks, retry_streams-SameLinks, adds_link,
  removes_control, removes_events, any_wake,
}

module _ {P : Parts} (lib : Libraries P) (on_report : OnReport P) where
  turn-no_control :
      (a : Answers P) (sh : Shared P) (t : Task P) (w : Wake P)
      → adds_link w ≡ false
      → t.control_device ≡ none
      → (turn lib on_report a sh t w).task.control_device ≡ none
  unfolding turn on_message on_set_shot_delay on_zero on_new_delay streams_ended on_remove_control
      on_remove_events
  turn-no_control a sh t (message none) n c = c
  turn-no_control a sh t (message (some (from_service m))) n c =
      (on_service-SameLinks a sh t m).control_link ∙ c
  turn-no_control a sh t (message (some (set_shot_delay ms))) n c = c
  turn-no_control a sh t (message (some (zero_to trans point te))) n c = ground (arith, c)
  turn-no_control a sh t (message (some (add_events_device dev v))) n c = cc
  turn-no_control a sh t (message (some (add_control_device dev))) n c = cc
  turn-no_control a sh t (message (some remove_control_device)) n c =
      elim (Bool-cases (has_independent_ble_events (without_control t))) [
        | inl e ↦ ground (arith, e)
        | inr e ↦ ground (arith, e)
      ]
  turn-no_control a sh t (message (some remove_events_device)) n c = ground (arith, c)
  turn-no_control a sh t (new_delay d) n c = c
  turn-no_control a sh t resume_due n c = (resume_streams-SameLinks a t).control_link ∙ c
  turn-no_control a sh t retry_due n c = (retry_streams-SameLinks a t).control_link ∙ c
  turn-no_control a sh t (report none) n c = ground (arith, c)
  turn-no_control a sh t (report (some r)) n c = ground (arith, c)

  turn-no_events :
      (a : Answers P) (sh : Shared P) (t : Task P) (w : Wake P)
      → adds_link w ≡ false
      → t.events_device ≡ none
      → (turn lib on_report a sh t w).task.events_device ≡ none
  unfolding turn on_message on_set_shot_delay on_zero on_new_delay streams_ended on_remove_control
      on_remove_events
  turn-no_events a sh t (message none) n c = c
  turn-no_events a sh t (message (some (from_service m))) n c =
      (on_service-SameLinks a sh t m).events_link ∙ c
  turn-no_events a sh t (message (some (set_shot_delay ms))) n c = c
  turn-no_events a sh t (message (some (zero_to trans point te))) n c = ground (arith, c)
  turn-no_events a sh t (message (some (add_events_device dev v))) n c = cc
  turn-no_events a sh t (message (some (add_control_device dev))) n c = cc
  turn-no_events a sh t (message (some remove_control_device)) n c =
      elim (Bool-cases (has_independent_ble_events (without_control t))) [
        | inl e ↦ ground (arith, e, c)
        | inr e ↦ ground (arith, e)
      ]
  turn-no_events a sh t (message (some remove_events_device)) n c = ground arith
  turn-no_events a sh t (new_delay d) n c = c
  turn-no_events a sh t resume_due n c = (resume_streams-SameLinks a t).events_link ∙ c
  turn-no_events a sh t retry_due n c = (retry_streams-SameLinks a t).events_link ∙ c
  turn-no_events a sh t (report none) n c = ground (arith, c)
  turn-no_events a sh t (report (some r)) n c = ground (arith, c)

  -- After a removal the link is gone; with no other link the loop breaks.
  removal_control :
      (a : Answers P) (sh : Shared P) (t : Task P) (w : Wake P)
      → removes_control w ≡ true
      → (((turn lib on_report a sh t w).task.control_device ≡ none)
          × (t.events_device ≡ none → (turn lib on_report a sh t w).ended ≡ true))
  unfolding turn on_message on_remove_control has_independent_ble_events
  removal_control a sh t (message (some remove_control_device)) e =
      (ground arith, λ n. ground (arith, n))
  removal_control a sh t _ e = cc

  removal_events :
      (a : Answers P) (sh : Shared P) (t : Task P) (w : Wake P)
      → removes_events w ≡ true
      → (((turn lib on_report a sh t w).task.events_device ≡ none)
          × (t.control_device ≡ none → (turn lib on_report a sh t w).ended ≡ true))
  unfolding turn on_message on_remove_events
  removal_events a sh t (message (some remove_events_device)) e =
      (ground arith, λ n. ground (arith, n))
  removal_events a sh t _ e = cc

  no_control_end :
      (sh : Shared P) (t : Task P) (ws : List (Answers P × Wake P))
      → any_wake adds_link ws ≡ false
      → any_wake removes_events ws ≡ true
      → t.control_device ≡ none
      → (loop lib on_report sh t ws).ended ≡ true
  no_control_end sh t [] n m c = cc
  no_control_end sh t ((a, w) ∷ ws) n m c =
      let r = turn lib on_report a sh t w in
      elim (Bool-cases r.ended) [
        | inl e ↦ rw (loop_ended lib on_report sh t a w ws e) refl
        | inr e ↦ elim (Bool-cases (removes_events w)) [
          | inl k ↦ ground (arith, e, (removal_events a sh t w k).1 c)
          | inr k ↦ rw (loop_goes_on lib on_report sh t a w ws e) (
              no_control_end r.shared r.task ws (ground (arith, n)) (ground (arith, m, k))
                (turn-no_control a sh t w (ground (arith, n)) c))
        ]
      ]

  no_events_end :
      (sh : Shared P) (t : Task P) (ws : List (Answers P × Wake P))
      → any_wake adds_link ws ≡ false
      → any_wake removes_control ws ≡ true
      → t.events_device ≡ none
      → (loop lib on_report sh t ws).ended ≡ true
  no_events_end sh t [] n m c = cc
  no_events_end sh t ((a, w) ∷ ws) n m c =
      let r = turn lib on_report a sh t w in
      elim (Bool-cases r.ended) [
        | inl e ↦ rw (loop_ended lib on_report sh t a w ws e) refl
        | inr e ↦ elim (Bool-cases (removes_control w)) [
          | inl k ↦ ground (arith, e, (removal_control a sh t w k).1 c)
          | inr k ↦ rw (loop_goes_on lib on_report sh t a w ws e) (
              no_events_end r.shared r.task ws (ground (arith, n)) (ground (arith, m, k))
                (turn-no_events a sh t w (ground (arith, n)) c))
        ]
      ]

  removes_one : (w : Wake P) → removes_control w ≡ true → removes_events w ≡ false
  removes_one (message (some remove_control_device)) e = refl
  removes_one _ e = cc

  -- A task that is told to remove its control link and to remove its events link, in either order
  -- and among anything else, but not to add a link, has ended by then, whatever its links answer.
  pub loop_unplugged :
      (sh : Shared P) (t : Task P) (ws : List (Answers P × Wake P))
      → any_wake adds_link ws ≡ false
      → any_wake removes_control ws ≡ true
      → any_wake removes_events ws ≡ true
      → (loop lib on_report sh t ws).ended ≡ true
  loop_unplugged sh t [] n c m = cc
  loop_unplugged sh t ((a, w) ∷ ws) n c m =
      let r = turn lib on_report a sh t w in
      elim (Bool-cases r.ended) [
        | inl e ↦ rw (loop_ended lib on_report sh t a w ws e) refl
        | inr e ↦
            rw (loop_goes_on lib on_report sh t a w ws e) (elim (Bool-cases (removes_control w)) [
              | inl k ↦
                  no_control_end r.shared r.task ws (ground (arith, n))
                    (ground (arith, m, removes_one w k)) (removal_control a sh t w k).0
              | inr k ↦ elim (Bool-cases (removes_events w)) [
                | inl l ↦
                    no_events_end r.shared r.task ws (ground (arith, n)) (ground (arith, c, k))
                      (removal_events a sh t w l).0
                | inr l ↦
                    loop_unplugged r.shared r.task ws (ground (arith, n)) (ground (arith, c, k))
                      (ground (arith, m, l))
              ]
            ])
      ]
