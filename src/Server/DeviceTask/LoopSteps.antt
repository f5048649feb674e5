-- ===== src/Server/DeviceTask/LoopSteps.antt =====
-- The loop of a device task, one turn at a time.
use odyssey_desktop.Prelude.{◌≡◌, refl, true, false, List, [], ◌∷◌, ◌++◌}
use odyssey_desktop.Server.Hub.{disconnect}
use odyssey_desktop.Server.DeviceTask.State.{Parts, tell, Answers, Shared, Task}
use odyssey_desktop.Server.DeviceTask.Links.{Libraries}
use odyssey_desktop.Server.DeviceTask.Requests.{break}
use odyssey_desktop.Server.DeviceTask.Loop.{Wake, OnReport, turn, loop}

module _ {P : Parts} (lib : Libraries P) (on_report : OnReport P) (sh : Shared P) (t : Task P)
    (a : Answers P) (w : Wake P) (ws : List (Answers P × Wake P)) where
  pub loop_ended :
      (turn lib on_report a sh t w).ended ≡ true
      → loop lib on_report sh t ((a, w) ∷ ws) ≡ (
          let r = turn lib on_report a sh t w in
          break r.shared r.task (r.effects ++ tell (disconnect r.task.device) ∷ []))
  unfolding loop
  loop_ended e = rw e refl

  pub loop_goes_on :
      (turn lib on_report a sh t w).ended ≡ false
      → loop lib on_report sh t ((a, w) ∷ ws) ≡ (
          let r = turn lib on_report a sh t w in
          let rest = loop lib on_report r.shared r.task ws in
          record rest { effects = r.effects ++ rest.effects })
  unfolding loop
  loop_goes_on e = rw e refl
