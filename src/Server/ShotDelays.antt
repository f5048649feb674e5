-- ===== src/Server/ShotDelays.antt =====
-- odyssey_hub_server/src/server.rs, the shot delays: the live delays and a watch channel for each
-- device that was subscribed to or set.
pub mod Live
pub mod Stale
pub mod Persisted
pub mod Tests
use odyssey_desktop.Prelude.{
  ℕ, ◌%◌, ◌^◌, ◌≡◌, ◌==◌, if◌then◌else◌, Option, none, some, List, [], ◌∷◌, Bytes, bytes_inst,
  Result, ok, err,
}
use odyssey_desktop.Prelude.Assoc.{Map, lookup, insert}
use odyssey_desktop.Common.Device.{Device}
use odyssey_desktop.Server.Keyed.{find}
use odyssey_desktop.Server.Hub.{device_key}
use odyssey_desktop.Interface.Devices.{six_bytes}

-- The watch channels of the crate tokio, with what it documents of them: a new channel has one
-- receiver, a subscription adds one, and `send` fails and changes nothing if there is no receiver.
pub record WatchApi (W : Type 0) : Type 0 where
  pub channel : ℕ → W
  pub send : W → ℕ → W
  pub subscribe : W → W
  pub drop_receiver : W → W
  pub borrow : W → ℕ
  pub receiver_count : W → ℕ
  pub borrow-channel : (v : ℕ) → borrow (channel v) ≡ v
  pub count-channel : (v : ℕ) → receiver_count (channel v) ≡ 1
  pub borrow-send :
      (w : W) (v : ℕ) → borrow (send w v) ≡ (if receiver_count w == 0 then borrow w else v)
  pub count-send : (w : W) (v : ℕ) → receiver_count (send w v) ≡ receiver_count w
  pub borrow-subscribe : (w : W) → borrow (subscribe w) ≡ borrow w
  pub borrow-drop_receiver : (w : W) → borrow (drop_receiver w) ≡ borrow w

pub record ShotDelays (W : Type 0) : Type 0 where
  pub device_shot_delays : Map Bytes ℕ
  pub shot_delay_watch : Map Bytes W

-- What the service sends to a device task here.
pub data DelayMessage : Type 0 where
  set_shot_delay_message : ℕ → DelayMessage

-- `sender_for_uuid`
pub sender_for_uuid : {S : Type 0} → List (Device × S) → Bytes → Option S
unfolding find
sender_for_uuid dl uuid = elim (find device_key uuid dl) [ none ↦ none | some d ↦ some d.1 ]

module _ {W : Type 0} where
  -- `saved` is what the file of saved delays holds now.
  pub get_or_default_shot_delay : Map Bytes ℕ → ShotDelays W → Bytes → ℕ
  unfolding lookup
  get_or_default_shot_delay saved s uuid = elim (lookup uuid s.device_shot_delays) [
    | some v ↦ v
    | none ↦ elim (lookup uuid saved) [ none ↦ 0 | some v ↦ v ]
  ]

  -- The RPC `get_shot_delay`.
  pub get_shot_delay : Map Bytes ℕ → ShotDelays W → Bytes → ℕ
  unfolding get_or_default_shot_delay six_bytes
  get_shot_delay saved s uuid_vec = get_or_default_shot_delay saved s (six_bytes uuid_vec)

module _ {W : Type 0} (api : WatchApi W) where
  pub set_shot_delay_live : ShotDelays W → Bytes → ℕ → ShotDelays W
  unfolding lookup insert
  set_shot_delay_live s uuid ms = record {
    device_shot_delays = insert uuid ms s.device_shot_delays;
    shot_delay_watch = elim (lookup uuid s.shot_delay_watch) [
      | some tx ↦ insert uuid (api.send tx ms) s.shot_delay_watch
      | none ↦ insert uuid (api.drop_receiver (api.send (api.channel ms) ms)) s.shot_delay_watch
    ];
  }

  -- The state, and the channel that the receiver belongs to.
  pub subscribe_shot_delay_watch : Map Bytes ℕ → ShotDelays W → Bytes → ShotDelays W × W
  unfolding lookup insert get_or_default_shot_delay
  subscribe_shot_delay_watch saved s uuid =
      let cur = get_or_default_shot_delay saved s uuid in
      elim (lookup uuid s.shot_delay_watch) [
        | some tx ↦
            let w = api.subscribe tx in
            (record s { shot_delay_watch = insert uuid w s.shot_delay_watch }, w)
        | none ↦
            let w = api.channel cur in
            (record s { shot_delay_watch = insert uuid w s.shot_delay_watch }, w)
      ]

  -- The RPC `set_shot_delay`: the reply, the state and what is sent to device tasks. A device is
  -- given by the bytes of its UUID.
  pub set_shot_delay :
      {S : Type 0}
      → List (Device × S)
      → ShotDelays W
      → Option Bytes
      → ℕ
      → Result (Unit {0}) (Unit {0}) × (ShotDelays W × List (S × DelayMessage))
  unfolding set_shot_delay_live sender_for_uuid six_bytes
  set_shot_delay dl s none delay_ms = (err tt, (s, []))
  set_shot_delay dl s (some uuid_vec) delay_ms =
      let uuid = six_bytes uuid_vec in
      let ms = delay_ms % 2 ^ 16 in
      (
        ok tt,
        (
          set_shot_delay_live s uuid ms,
          elim (sender_for_uuid dl uuid) [
            | none ↦ []
            | some tx ↦ (tx, set_shot_delay_message ms) ∷ []
          ],
        ),
      )

  -- The RPC `reset_shot_delay`.
  pub reset_shot_delay :
      {S : Type 0}
      → List (Device × S)
      → ShotDelays W
      → Bytes
      → ℕ × (ShotDelays W × List (S × DelayMessage))
  unfolding set_shot_delay_live sender_for_uuid six_bytes
  reset_shot_delay dl s uuid_vec =
      let uuid = six_bytes uuid_vec in
      let default_ms : ℕ = 0 in
      (
        default_ms,
        (
          set_shot_delay_live s uuid default_ms,
          elim (sender_for_uuid dl uuid) [
            | none ↦ []
            | some tx ↦ (tx, set_shot_delay_message default_ms) ∷ []
          ],
        ),
      )

  -- The first reply of the RPC `subscribe_shot_delay`.
  pub subscribe_shot_delay : Map Bytes ℕ → ShotDelays W → Bytes → ShotDelays W × ℕ
  unfolding subscribe_shot_delay_watch six_bytes
  subscribe_shot_delay saved s uuid_vec =
      let (s', w) = subscribe_shot_delay_watch saved s (six_bytes uuid_vec) in (s', api.borrow w)
