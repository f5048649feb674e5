-- ===== src/Server/ShotDelays/Tests.antt =====
-- A channel as its value and the number of its receivers, and the theorems at it.
use odyssey_desktop.Prelude.{
  ℕ, ◌+◌, ◌-◌, ◌%◌, ◌^◌, ◌≡◌, refl, ◌==◌, if◌then◌else◌, none, some, List, [], ◌∷◌, Bytes, bytes_eq,
  bytes_inst,
}
use odyssey_desktop.Prelude.Assoc.{lookup}
use odyssey_desktop.Common.Device.{Device}
use odyssey_desktop.Interface.Devices.{six_bytes}
use odyssey_desktop.Server.ShotDelays.{
  WatchApi, ShotDelays, set_shot_delay, get_shot_delay, subscribe_shot_delay, sender_for_uuid,
  set_shot_delay_message,
}
use odyssey_desktop.Server.ShotDelays.Live.{
  Agrees, set_shot_delay_lem, subscribe_shot_delay_lem, set_shot_delay-Agrees,
}
use odyssey_desktop.Server.ShotDelays.Stale.{subscribe_shot_delay_stale}

abbrev pub Channel : Type 0
Channel = ℕ × ℕ

abbrev pub counted_send : Channel → ℕ → Channel
counted_send (value, receivers) v = (if receivers == 0 then value else v, receivers)

abbrev pub counted : WatchApi Channel
counted = record {
  channel = λ v. (v, 1);
  send = counted_send;
  subscribe = λ w. (w.0, w.1 + 1);
  drop_receiver = λ w. (w.0, w.1 - 1);
  borrow = λ w. w.0;
  receiver_count = λ w. w.1;
  borrow-channel = λ v. refl;
  count-channel = λ v. refl;
  borrow-send = λ w v. refl;
  count-send = λ w v. refl;
  borrow-subscribe = λ w. refl;
  borrow-drop_receiver = λ w. refl;
}

abbrev uuid : Bytes
uuid = 1 ∷ 2 ∷ 3 ∷ 4 ∷ 5 ∷ 6 ∷ []

abbrev no_devices : List (Device × ℕ)
no_devices = []

-- Someone was told 20 and went away.
abbrev left : ShotDelays Channel
left = record { device_shot_delays = (uuid, 20) ∷ []; shot_delay_watch = (uuid, (20, 0)) ∷ [] }

abbrev watched : ShotDelays Channel
watched = record { device_shot_delays = []; shot_delay_watch = [] }

set_then_subscribe :
    (subscribe_shot_delay counted []
      (set_shot_delay counted no_devices left (some uuid) 50).1.0
      uuid).1
    ≡ 20
unfolding subscribe_shot_delay set_shot_delay
set_then_subscribe = refl

left-found : lookup (six_bytes uuid) left.shot_delay_watch ≡ some (20, 0)
unfolding lookup six_bytes
left-found = refl

subscribe_shot_delay_stale_example :
    ((subscribe_shot_delay counted []
        (set_shot_delay counted no_devices left (some uuid) 50).1.0
        uuid).1
      ≡ 20)
    × (get_shot_delay [] (set_shot_delay counted no_devices left (some uuid) 50).1.0 uuid ≡ 50)
subscribe_shot_delay_stale_example =
    subscribe_shot_delay_stale counted [] no_devices left uuid 50 (20, 0) left-found refl

watched-Agrees : Agrees counted [] watched
unfolding lookup
watched-Agrees = record { at = λ u. tt }

subscribe_shot_delay_lem_example :
    ((subscribe_shot_delay counted [] watched uuid).1 ≡ get_shot_delay [] watched uuid)
    × Agrees counted [] (subscribe_shot_delay counted [] watched uuid).0
subscribe_shot_delay_lem_example = subscribe_shot_delay_lem counted [] watched uuid watched-Agrees

set_shot_delay-Agrees_example :
    Agrees counted [] (set_shot_delay counted no_devices watched (some uuid) 50).1.0
unfolding lookup
set_shot_delay-Agrees_example =
    set_shot_delay-Agrees counted [] no_devices watched uuid 50 watched-Agrees refl

set_shot_delay_lem_example :
    (get_shot_delay [] (set_shot_delay counted no_devices left (some uuid) 70000).1.0 uuid ≡ (
      if bytes_eq (six_bytes uuid) (six_bytes uuid)
      then 70000 % 2 ^ 16
      else get_shot_delay [] left uuid))
    × ((set_shot_delay counted no_devices left (some uuid) 70000).1.1
        ≡ (elim (sender_for_uuid no_devices (six_bytes uuid)) [
          | none ↦ []
          | some tx ↦ (tx, set_shot_delay_message (70000 % 2 ^ 16)) ∷ []
        ]))
set_shot_delay_lem_example = set_shot_delay_lem counted [] no_devices left uuid 70000 uuid
