-- ===== src/Server/ShotDelays/Stale.antt =====
-- A channel that nobody receives from any more.
use odyssey_desktop.Prelude.{
  ℕ, ◌%◌, ◌^◌, ◌≡◌, ◌∙◌, some, List, arith, Bytes, bytes_eq, bytes_eq_iff, bytes_inst, refl, true,
}
use odyssey_desktop.Prelude.Assoc.{Map, lookup}
use odyssey_desktop.Common.Device.{Device}
use odyssey_desktop.Interface.Devices.{six_bytes}
use odyssey_desktop.Server.ShotDelays.{
  WatchApi, ShotDelays, subscribe_shot_delay_watch, set_shot_delay, get_shot_delay,
  subscribe_shot_delay,
}
use odyssey_desktop.Server.ShotDelays.Live.{lookup-set_live, set_channel, set_shot_delay_lem}

-- Once all subscribers of a device are gone, a new delay is set but does not reach the channel: the
-- next subscriber is first told what the channel held before, and not the delay in force.
pub subscribe_shot_delay_stale :
    {W S : Type 0} (api : WatchApi W) (saved : Map Bytes ℕ) (dl : List (Device × S))
    (s : ShotDelays W) (u : Bytes) (delay_ms : ℕ) (w : W)
    → lookup (six_bytes u) s.shot_delay_watch ≡ some w
    → api.receiver_count w ≡ 0
    → ((subscribe_shot_delay api saved (set_shot_delay api dl s (some u) delay_ms).1.0 u).1
        ≡ api.borrow w)
      × (get_shot_delay saved (set_shot_delay api dl s (some u) delay_ms).1.0 u ≡ delay_ms % 2 ^ 16)
unfolding subscribe_shot_delay subscribe_shot_delay_watch set_shot_delay set_channel
subscribe_shot_delay_stale api saved dl s u delay_ms w h z =
    let self : bytes_eq (six_bytes u) (six_bytes u) ≡ true =
      (bytes_eq_iff (six_bytes u) (six_bytes u)).1 refl in
    (
      ground (
        arith,
        h,
        z,
        self,
        lookup-set_live api saved s (six_bytes u) (six_bytes u) (delay_ms % 2 ^ 16),
        api.borrow-subscribe (api.send w (delay_ms % 2 ^ 16)),
        api.borrow-send w (delay_ms % 2 ^ 16),
      ),
      (set_shot_delay_lem api saved dl s u delay_ms u).0 ∙ ground (arith, self),
    )
