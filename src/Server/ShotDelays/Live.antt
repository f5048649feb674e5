-- ===== src/Server/ShotDelays/Live.antt =====
-- What is set is what is read, and what a subscriber sees first.
use odyssey_desktop.Prelude.{
  ℕ, ◌%◌, ◌^◌, ◌≡◌, refl, ap, sym, ◌∙◌, Bool-cases, Option-cases, inl, inr, Option, none, some,
  List, [], ◌∷◌, arith, Bytes, bytes_eq, bytes_eq_iff, bytes_inst, if◌then◌else◌, ◌==◌, subst, true,
  Bool, not,
}
use odyssey_desktop.Prelude.Assoc.{Map, lookup, lookup-insert}
use odyssey_desktop.Common.Device.{Device}
use odyssey_desktop.Interface.Devices.{six_bytes}
use odyssey_desktop.Server.ShotDelays.{
  WatchApi, ShotDelays, get_or_default_shot_delay, set_shot_delay_live, subscribe_shot_delay_watch,
  set_shot_delay, get_shot_delay, subscribe_shot_delay, sender_for_uuid, set_shot_delay_message,
}

module _ {W : Type 0} (api : WatchApi W) (saved : Map Bytes ℕ) where
  pub set_live_get :
      (s : ShotDelays W) (uuid : Bytes) (ms : ℕ) (v : Bytes)
      → get_or_default_shot_delay saved (set_shot_delay_live api s uuid ms) v
        ≡ (if bytes_eq uuid v then ms else get_or_default_shot_delay saved s v)
  unfolding get_or_default_shot_delay set_shot_delay_live
  set_live_get s uuid ms v = ground (arith, lookup-insert uuid v ms s.device_shot_delays)

  -- After `set_shot_delay` the delay of the device is the one that was set, cut to 16 bits, and the
  -- others are as before; the task of the device, if it is listed, is told the same delay.
  pub set_shot_delay_lem :
      {S : Type 0} (dl : List (Device × S)) (s : ShotDelays W) (u : Bytes) (delay_ms : ℕ)
      (v : Bytes)
      → (get_shot_delay saved (set_shot_delay api dl s (some u) delay_ms).1.0 v ≡ (
          if bytes_eq (six_bytes u) (six_bytes v)
          then delay_ms % 2 ^ 16
          else get_shot_delay saved s v))
        × ((set_shot_delay api dl s (some u) delay_ms).1.1
            ≡ (elim (sender_for_uuid dl (six_bytes u)) [
              | none ↦ []
              | some tx ↦ (tx, set_shot_delay_message (delay_ms % 2 ^ 16)) ∷ []
            ]))
  unfolding set_shot_delay get_shot_delay
  set_shot_delay_lem dl s u delay_ms v =
      (set_live_get s (six_bytes u) (delay_ms % 2 ^ 16) (six_bytes v), refl)

  -- A channel, if there is one, holds the delay `n`.
  abbrev pub AgreesAt : Option W → ℕ → Type 0
  AgreesAt none n = Unit
  AgreesAt (some w) n = api.borrow w ≡ n

  -- Each channel holds the delay of its device.
  pub record Agrees (s : ShotDelays W) : Type 0 where
    pub at :
        (u : Bytes) → AgreesAt (lookup u s.shot_delay_watch) (get_or_default_shot_delay saved s u)

  -- Whether someone would see what is sent to the channel; so it is where there is none.
  abbrev pub is_watched : Option W → Bool
  is_watched none = true
  is_watched (some w) = not (api.receiver_count w == 0)

  subscribe_borrow :
      (s : ShotDelays W) (uuid : Bytes)
      → Agrees s
      → api.borrow (subscribe_shot_delay_watch api saved s uuid).1
        ≡ get_or_default_shot_delay saved s uuid
  unfolding subscribe_shot_delay_watch
  subscribe_borrow s uuid g = elim (Option-cases (lookup uuid s.shot_delay_watch)) [
    | inl n ↦ ground (arith, n, api.borrow-channel (get_or_default_shot_delay saved s uuid))
    | inr (w, n) ↦ ground (arith, n, api.borrow-subscribe w, g.at uuid)
  ]

  AgreesAt-cong : {o p : Option W} {n m : ℕ} → o ≡ p → n ≡ m → AgreesAt p m → AgreesAt o n
  AgreesAt-cong {p = p} {n = n} a b h =
      subst (λ o. AgreesAt o n) (sym a) (subst (AgreesAt p) (sym b) h)

  lookup-subscribe :
      (s : ShotDelays W) (uuid u : Bytes)
      → (lookup u (subscribe_shot_delay_watch api saved s uuid).0.shot_delay_watch ≡ (
          if bytes_eq uuid u
          then some (subscribe_shot_delay_watch api saved s uuid).1
          else lookup u s.shot_delay_watch))
        × (get_or_default_shot_delay saved (subscribe_shot_delay_watch api saved s uuid).0 u
            ≡ get_or_default_shot_delay saved s u)
  unfolding subscribe_shot_delay_watch get_or_default_shot_delay
  lookup-subscribe s uuid u = elim (Option-cases (lookup uuid s.shot_delay_watch)) [
    | inl n ↦ (
      ground (
        arith,
        n,
        lookup-insert uuid u (api.channel (get_or_default_shot_delay saved s uuid))
            s.shot_delay_watch,
      ),
      ground (arith, n),
    )
    | inr (w, n) ↦ (
      ground (arith, n, lookup-insert uuid u (api.subscribe w) s.shot_delay_watch),
      ground (arith, n),
    )
  ]

  subscribe_Agrees :
      (s : ShotDelays W) (uuid : Bytes)
      → Agrees s
      → Agrees (subscribe_shot_delay_watch api saved s uuid).0
  subscribe_Agrees s uuid g = record {
    at = λ u.
        let (a, b) = lookup-subscribe s uuid u in
        elim (Bool-cases (bytes_eq uuid u)) [
          | inl e ↦
              AgreesAt-cong {p = some (subscribe_shot_delay_watch api saved s uuid).1}
                (ground (arith, a, e)) b
                (subscribe_borrow s uuid g
                  ∙ ap (get_or_default_shot_delay saved s) ((bytes_eq_iff uuid u).0 e))
          | inr e ↦
              AgreesAt-cong {p = lookup u s.shot_delay_watch} (ground (arith, a, e)) b (g.at u)
        ];
  }

  -- A subscriber is first told the delay that is in force, and the channels keep holding the delays,
  -- where they held them before.
  pub subscribe_shot_delay_lem :
      (s : ShotDelays W) (u : Bytes)
      → Agrees s
      → ((subscribe_shot_delay api saved s u).1 ≡ get_shot_delay saved s u)
        × Agrees (subscribe_shot_delay api saved s u).0
  unfolding subscribe_shot_delay get_shot_delay
  subscribe_shot_delay_lem s u g =
      (subscribe_borrow s (six_bytes u) g, subscribe_Agrees s (six_bytes u) g)

  -- The channel of the device after a set.
  unfoldable pub set_channel : Option W → ℕ → W
  set_channel none ms = api.drop_receiver (api.send (api.channel ms) ms)
  set_channel (some w) ms = api.send w ms

  pub lookup-set_live :
      (s : ShotDelays W) (uuid u : Bytes) (ms : ℕ)
      → lookup u (set_shot_delay_live api s uuid ms).shot_delay_watch ≡ (
          if bytes_eq uuid u
          then some (set_channel (lookup uuid s.shot_delay_watch) ms)
          else lookup u s.shot_delay_watch)
  unfolding set_shot_delay_live set_channel
  lookup-set_live s uuid u ms = elim (Option-cases (lookup uuid s.shot_delay_watch)) [
    | inl n ↦ ground (
      arith,
      n,
      lookup-insert uuid u (api.drop_receiver (api.send (api.channel ms) ms)) s.shot_delay_watch,
    )
    | inr (w, n) ↦ ground (arith, n, lookup-insert uuid u (api.send w ms) s.shot_delay_watch)
  ]

  set_channel_borrow :
      (o : Option W) (ms : ℕ) → is_watched o ≡ true → api.borrow (set_channel o ms) ≡ ms
  unfolding set_channel
  set_channel_borrow none ms h =
      api.borrow-drop_receiver (api.send (api.channel ms) ms)
      ∙ api.borrow-send (api.channel ms) ms
      ∙ ground (arith, api.borrow-channel ms)
  set_channel_borrow (some w) ms h = ground (arith, api.borrow-send w ms, h)

  set_live_Agrees :
      (s : ShotDelays W) (uuid : Bytes) (ms : ℕ)
      → Agrees s
      → is_watched (lookup uuid s.shot_delay_watch) ≡ true
      → Agrees (set_shot_delay_live api s uuid ms)
  set_live_Agrees s uuid ms g h = record {
    at = λ u.
        let a = lookup-set_live s uuid u ms in
        let b = set_live_get s uuid ms u in
        elim (Bool-cases (bytes_eq uuid u)) [
          | inl e ↦
              AgreesAt-cong {p = some (set_channel (lookup uuid s.shot_delay_watch) ms)} {m = ms}
                (ground (arith, a, e)) (ground (arith, b, e))
                (set_channel_borrow (lookup uuid s.shot_delay_watch) ms h)
          | inr e ↦
              AgreesAt-cong {p = lookup u s.shot_delay_watch}
                {m = get_or_default_shot_delay saved s u} (ground (arith, a, e))
                (ground (arith, b, e)) (g.at u)
        ];
  }

  -- A set keeps the channels agreeing with the delays, if the channel of the device has a receiver or
  -- there is none.
  pub set_shot_delay-Agrees :
      {S : Type 0} (dl : List (Device × S)) (s : ShotDelays W) (u : Bytes) (delay_ms : ℕ)
      → Agrees s
      → is_watched (lookup (six_bytes u) s.shot_delay_watch) ≡ true
      → Agrees (set_shot_delay api dl s (some u) delay_ms).1.0
  unfolding set_shot_delay
  set_shot_delay-Agrees dl s u delay_ms g h =
      set_live_Agrees s (six_bytes u) (delay_ms % 2 ^ 16) g h
