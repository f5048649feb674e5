-- ===== src/Server/ShotDelays/Persisted.antt =====
-- odyssey_hub_server/src/server.rs, `save_shot_delay`, with the file of odyssey_hub_common/src/config.rs,
-- and the delays that `run_server` of lib.rs starts with.
pub mod Restart
pub mod Tests
use odyssey_desktop.Prelude.{
  ℕ, ◌≡◌, Option, none, some, List, [], ◌∷◌, Bytes, bytes_inst, Outcome, done, panic, ◌>>=◌, Result,
  ok, err,
}
use odyssey_desktop.Prelude.Assoc.{Map, lookup}
use odyssey_desktop.Common.Config.{
  device_shot_delays_json, into_value, Files, Json5, load_map, device_shot_delay_save,
}
use odyssey_desktop.Interface.Devices.{six_bytes}
use odyssey_desktop.Server.ShotDelays.{ShotDelays, get_or_default_shot_delay}

-- The internal error of the service.
pub data SaveError : Type 0 where
  failed_to_save_delay : Bytes → SaveError

-- The delays of the service where `saved` was loaded; nobody has subscribed.
unfoldable pub start_with : {W : Type 0} → Map Bytes ℕ → ShotDelays W
start_with saved = record { device_shot_delays = saved; shot_delay_watch = [] }

-- `map_err`
unfoldable pub save_status : Result (Unit {0}) Bytes → Result (Unit {0}) SaveError
save_status (ok t) = ok t
save_status (err e) = err (failed_to_save_delay e)

module _ {S : Type 0} (files : Files S) (json : Json5 ℕ) where
  -- `persist_shot_delay`: the file system and the result.
  unfoldable pub persist_shot_delay : S → Bytes → ℕ → Outcome (S × Result (Unit {0}) SaveError)
  unfolding device_shot_delay_save save_status
  persist_shot_delay fs uuid ms =
      device_shot_delay_save files json fs uuid ms >>= λ p. done (p.0, save_status p.1)

module _ {S W : Type 0} (files : Files S) (json : Json5 ℕ) where
  -- `get_or_default_shot_delay`, which reads the file only if there is no live delay.
  unfoldable pub delay_in_force : S → ShotDelays W → Bytes → Outcome ℕ
  unfolding load_map into_value get_or_default_shot_delay lookup
  delay_in_force fs s uuid = elim (lookup uuid s.device_shot_delays) [
    | some v ↦ done v
    | none ↦ load_map files json device_shot_delays_json fs >>= λ r.
        done (get_or_default_shot_delay (into_value [] r) s uuid)
  ]

  -- The RPC `save_shot_delay`.
  unfoldable pub save_shot_delay :
      S → ShotDelays W → Bytes → Outcome (S × Result (Unit {0}) SaveError)
  unfolding delay_in_force persist_shot_delay six_bytes
  save_shot_delay fs s uuid_vec =
      let uuid = six_bytes uuid_vec in
      delay_in_force fs s uuid >>= λ cur. persist_shot_delay files json fs uuid cur

  -- The RPC `get_shot_delay`, with the file.
  unfoldable pub read_shot_delay : S → ShotDelays W → Bytes → Outcome ℕ
  unfolding delay_in_force six_bytes
  read_shot_delay fs s uuid_vec = delay_in_force fs s (six_bytes uuid_vec)

  -- What `run_server` starts with.
  unfoldable pub start_shot_delays : S → Outcome (ShotDelays W)
  unfolding load_map into_value start_with
  start_shot_delays fs =
      load_map files json device_shot_delays_json fs >>= λ r. done (start_with (into_value [] r))
