-- ===== src/Server/DeviceTask/Listed.antt =====
-- The hub's list and a device task: what is listed for the device is what the task knows of it.
use odyssey_desktop.Prelude.{
  ◌≡◌, refl, ap, sym, ◌∙◌, subst, true, false, Bool-cases, none, some, inl, inr, List, [], ◌∷◌,
  ◌++◌, Bytes, bytes_eq, bytes_eq_iff, arith, if◌then◌else◌,
}
use odyssey_desktop.Common.Device.{Device}
use odyssey_desktop.Server.Hub.{Hub, Message, run, disconnect}
use odyssey_desktop.Server.Hub.Refine.{
  View, IsUnique, find_device, view, spec_step, spec_run, run_refines,
}
use odyssey_desktop.Server.DeviceTask.State.{Parts, Effect, tell, Answers, Shared, Task, Turn}
use odyssey_desktop.Server.DeviceTask.Links.{Libraries}
use odyssey_desktop.Server.DeviceTask.Loop.{Wake, OnReport, turn, loop}
use odyssey_desktop.Server.DeviceTask.LoopSteps.{loop_ended, loop_goes_on}
use odyssey_desktop.Server.DeviceTask.Told.{told, told-++, Told, silent, updated, renamed, quit}
use odyssey_desktop.Server.DeviceTask.TurnTold.{turn-Told}

spec_run-++ :
    {S T Ev : Type 0} (dummy : S) (v : View S T) (a b : List (Message S T Ev))
    → spec_run dummy v (a ++ b) ≡ spec_run dummy (spec_run dummy v a) b
spec_run-++ dummy v [] b = refl
spec_run-++ dummy v (m ∷ a) b = spec_run-++ dummy (spec_step dummy v m) a b

bytes_eq_self : (a : Bytes) → bytes_eq a a ≡ true
bytes_eq_self a = (bytes_eq_iff a a).1 refl

module _ {P : Parts} (dummy_tx tx : P.Sender) where
  -- What the messages of a turn make of the entry of the task's device.
  Told-device :
      (d : Device) (r : Turn P) (v : View P.Sender P.DongleSender)
      → Told d r
      → v.device d.uuid ≡ some (d, tx)
      → r.ended ≡ false
      → (spec_run dummy_tx v (told r.effects)).device r.task.device.uuid ≡ some (r.task.device, tx)
  Told-device d r v (silent e f) h n = rw (f, e) h
  Told-device d r v (updated e f) h n =
      rw f (ground (arith, bytes_eq_self r.task.device.uuid, ap v.device e, h))
  Told-device d r v (renamed name e f) h n = rw (f, e) (ground (arith, bytes_eq_self d.uuid, h))
  Told-device d r v (quit q e f) h n = cc

  -- The entries of other devices are left alone.
  Told-others :
      (d : Device) (r : Turn P) (v : View P.Sender P.DongleSender) (u : Bytes)
      → Told d r
      → bytes_eq d.uuid u ≡ false
      → (spec_run dummy_tx v (told r.effects)).device u ≡ v.device u
  Told-others d r v u (silent e f) h = rw f refl
  Told-others d r v u (updated e f) h = rw f (ground (arith, h, ap (λ x. bytes_eq x u) e))
  Told-others d r v u (renamed name e f) h = rw f (ground (arith, h))
  Told-others d r v u (quit q e f) h = rw f refl

Told-uuid : {P : Parts} {d : Device} {r : Turn P} → Told d r → r.task.device.uuid ≡ d.uuid
Told-uuid (silent e f) = ap (λ (x : Device). x.uuid) e
Told-uuid (updated e f) = e
Told-uuid (renamed name e f) = ap (λ (x : Device). x.uuid) e
Told-uuid (quit q e f) = e

module _ {P : Parts} (lib : Libraries P) (on_report : OnReport P) (dummy_tx tx : P.Sender) where
  loop-uuid :
      (sh : Shared P) (t : Task P) (ws : List (Answers P × Wake P))
      → (loop lib on_report sh t ws).task.device.uuid ≡ t.device.uuid
  unfolding loop
  loop-uuid sh t [] = refl
  loop-uuid sh t ((a, w) ∷ ws) =
      let r = turn lib on_report a sh t w in
      elim (Bool-cases r.ended) [
        | inl e ↦
            rw (loop_ended lib on_report sh t a w ws e)
              (Told-uuid (turn-Told lib on_report a sh t w))
        | inr e ↦
            rw (loop_goes_on lib on_report sh t a w ws e)
              (loop-uuid r.shared r.task ws ∙ Told-uuid (turn-Told lib on_report a sh t w))
      ]

  abbrev pub after : View P.Sender P.DongleSender → List (Effect P) → View P.Sender P.DongleSender
  after v es = spec_run dummy_tx v (told es)

  after-++ :
      (v : View P.Sender P.DongleSender) (a b : List (Effect P))
      → after v (a ++ b) ≡ after (after v a) b
  after-++ v a b = ap (spec_run dummy_tx v) (told-++ a b) ∙ spec_run-++ dummy_tx v (told a) (told b)

  gone :
      (v : View P.Sender P.DongleSender) (d : Device) (u : Bytes)
      → d.uuid ≡ u
      → (after v (tell (disconnect d) ∷ [])).device u ≡ none
  unfolding told
  gone v d u k = rw k (ground (arith, bytes_eq_self u))

  stays :
      (v : View P.Sender P.DongleSender) (d : Device) (u : Bytes)
      → bytes_eq d.uuid u ≡ false
      → (after v (tell (disconnect d) ∷ [])).device u ≡ v.device u
  unfolding told
  stays v d u k = ground (arith, k)

  loop-listed :
      (v : View P.Sender P.DongleSender) (sh : Shared P) (t : Task P)
      (ws : List (Answers P × Wake P))
      → v.device t.device.uuid ≡ some (t.device, tx)
      → (after v (loop lib on_report sh t ws).effects).device t.device.uuid ≡ (
          if (loop lib on_report sh t ws).ended
          then none
          else some ((loop lib on_report sh t ws).task.device, tx))
  unfolding loop told
  loop-listed v sh t [] h = h
  loop-listed v sh t ((a, w) ∷ ws) h =
      let r = turn lib on_report a sh t w in
      elim (Bool-cases r.ended) [
        | inl e ↦ rw (loop_ended lib on_report sh t a w ws e) (
            ap (λ (x : View P.Sender P.DongleSender). x.device t.device.uuid)
              (after-++ v r.effects (tell (disconnect r.task.device) ∷ []))
            ∙ gone (after v r.effects) r.task.device t.device.uuid
                (Told-uuid (turn-Told lib on_report a sh t w)))
        | inr e ↦
            let k = Told-uuid (turn-Told lib on_report a sh t w) in
            rw (loop_goes_on lib on_report sh t a w ws e) (
              ap (λ (x : View P.Sender P.DongleSender). x.device t.device.uuid)
                (after-++ v r.effects (loop lib on_report r.shared r.task ws).effects)
              ∙ ap
                  (after (after v r.effects) (loop lib on_report r.shared r.task ws).effects).device
                  (sym k)
              ∙ loop-listed (after v r.effects) r.shared r.task ws
                  (Told-device dummy_tx tx t.device r v (turn-Told lib on_report a sh t w) h e))
      ]

  loop-others :
      (v : View P.Sender P.DongleSender) (sh : Shared P) (t : Task P)
      (ws : List (Answers P × Wake P)) (u : Bytes)
      → bytes_eq t.device.uuid u ≡ false
      → (after v (loop lib on_report sh t ws).effects).device u ≡ v.device u
  unfolding told loop
  loop-others v sh t [] u h = refl
  loop-others v sh t ((a, w) ∷ ws) u h =
      let r = turn lib on_report a sh t w in
      let told_r = turn-Told lib on_report a sh t w in
      let h' : bytes_eq r.task.device.uuid u ≡ false =
        ap (λ x. bytes_eq x u) (Told-uuid told_r) ∙ h in
      elim (Bool-cases r.ended) [
        | inl e ↦ rw (loop_ended lib on_report sh t a w ws e) (
            ap (λ (x : View P.Sender P.DongleSender). x.device u)
              (after-++ v r.effects (tell (disconnect r.task.device) ∷ []))
            ∙ stays (after v r.effects) r.task.device u h'
            ∙ Told-others dummy_tx tx t.device r v u told_r h)
        | inr e ↦ rw (loop_goes_on lib on_report sh t a w ws e) (
            ap (λ (x : View P.Sender P.DongleSender). x.device u)
              (after-++ v r.effects (loop lib on_report r.shared r.task ws).effects)
            ∙ loop-others (after v r.effects) r.shared r.task ws u h'
            ∙ Told-others dummy_tx tx t.device r v u told_r h)
      ]

  -- Let the hub list the device of a task, with no UUID twice, as the task knows it. Whatever wakes
  -- the task up and whatever its links answer: when the hub has handled what the task told it, the
  -- device is listed with the same sender and just as the task knows it now, if the task goes on,
  -- and it is not listed if the task has ended. The other devices are listed as before.
  pub listed-loop :
      (h : Hub P.Sender P.DongleSender) (sh : Shared P) (t : Task P)
      (ws : List (Answers P × Wake P)) (u : Bytes)
      → IsUnique h
      → find_device t.device.uuid h.device_list ≡ some (t.device, tx)
      → let r = loop lib on_report sh t ws in
        let h' = (run dummy_tx h (told r.effects)).0 in
        find_device u h'.device_list ≡ (
          if bytes_eq t.device.uuid u
          then (if r.ended then none else some (r.task.device, tx))
          else find_device u h.device_list)
  listed-loop h sh t ws u i l =
      let r = loop lib on_report sh t ws in
      let e = (run_refines dummy_tx (told r.effects) h i).0 in
      ap (λ (v : View P.Sender P.DongleSender). v.device u) e
      ∙ (elim (Bool-cases (bytes_eq t.device.uuid u)) [
        | inl b ↦
            subst
              (λ x. (after (view h) r.effects).device x ≡ (
                if bytes_eq t.device.uuid u
                then (if r.ended then none else some (r.task.device, tx))
                else find_device u h.device_list))
              ((bytes_eq_iff t.device.uuid u).0 b)
              (ground (arith, b, loop-listed (view h) sh t ws l))
        | inr b ↦ ground (arith, b, loop-others (view h) sh t ws u b)
      ])
