-- ===== src/Server/ShotDelays/Persisted/Restart.antt =====
-- A delay that was saved is in force after the server is started again.
use odyssey_desktop.Prelude.{
  ℕ, ◌≡◌, ap, sym, ◌∙◌, inl, inr, Option-cases, [], Bytes, bytes_inst, bytes_eq, arith, Outcome,
  done, panic, ◌>>=◌, Result, ok, err, if◌then◌else◌, All, length, length-append, length-take,
  done-injective, min, length-drop, drop, take, replicate,
}
use odyssey_desktop.Prelude.Assoc.{Map, insert, lookup, lookup-insert}
use odyssey_desktop.Common.Device.{copy_prefix}
use odyssey_desktop.Common.HexKeyMap.RoundTrip.{IsByte}
use odyssey_desktop.Common.Config.{
  device_shot_delays_json, ConfigLoadResult, success, into_value, Files, Json5, load_map,
  device_shot_delay_save,
}
use odyssey_desktop.Common.Config.Saved.{load_map-device_shot_delay_save}
use odyssey_desktop.Interface.Devices.{six_bytes}
use odyssey_desktop.Server.ShotDelays.{ShotDelays, get_or_default_shot_delay, get_shot_delay}
use odyssey_desktop.Server.ShotDelays.Persisted.{
  SaveError, save_status, delay_in_force, persist_shot_delay, save_shot_delay, read_shot_delay,
  start_shot_delays, start_with,
}

length-six_bytes : (u : Bytes) → length (six_bytes u) ≡ 6
unfolding six_bytes copy_prefix
length-six_bytes u = ground (
  arith,
  length-append (take (min 6 (length u)) u) (drop (min 6 (length u)) (replicate 6 0)),
  length-take (min 6 (length u)) u,
  length-drop {A = ℕ} (min 6 (length u)) (replicate 6 0),
)

-- A saving that succeeds has written the file.
persisted :
    {S : Type 0} (fs' : S) (o : Outcome (S × Result (Unit {0}) Bytes))
    → ◌>>=◌ {B = S × Result (Unit {0}) SaveError} o (λ p. done (p.0, save_status p.1))
      ≡ done (fs', ok tt)
    → o ≡ done (fs', ok tt)
unfolding save_status
persisted fs' panic e = absurd (cc)
persisted fs' (done (fs, ok t)) e = ap (λ x. done (x, ok tt)) (ap (λ p. p.0) (done-injective e))
persisted fs' (done (fs, err x)) e = absurd (cc)

module _ {S W : Type 0} (files : Files S) (json : Json5 ℕ) where
  -- The delay in force, where the file is loaded with the result `r`.
  delay_in_force_loaded :
      (fs : S) (s : ShotDelays W) (uuid : Bytes) (r : ConfigLoadResult (Map Bytes ℕ))
      → load_map files json device_shot_delays_json fs ≡ done r
      → delay_in_force files json fs s uuid
        ≡ done (get_or_default_shot_delay (into_value [] r) s uuid)
  unfolding delay_in_force get_or_default_shot_delay
  delay_in_force_loaded fs s uuid r h = elim (Option-cases (lookup uuid s.device_shot_delays)) [
    | inl n ↦ rw (n, delay_in_force) (rw h (ground (arith, n)))
    | inr (v, n) ↦ ground (arith, n)
  ]

-- A server that is started where the file is loaded with the delays `m`.
restarted :
    {S : Type 0} (W : Type 0) (files : Files S) (json : Json5 ℕ) (fs : S) (m : Map Bytes ℕ)
    (v : Bytes)
    → load_map files json device_shot_delays_json fs ≡ done (success m)
    → (start_shot_delays {W = W} files json fs >>= λ t. read_shot_delay files json fs t v)
      ≡ done (get_shot_delay {W = W} m (start_with m) v)
unfolding start_shot_delays read_shot_delay get_shot_delay
restarted W files json fs m v h =
    rw h (delay_in_force_loaded {W = W} files json fs (start_with m) (six_bytes v) (success m) h)

-- What is in force once a delay was added to the file.
in_force_after :
    (W : Type 0) (uuid v : Bytes) (n : ℕ) (m : Map Bytes ℕ)
    → get_or_default_shot_delay {W = W} (insert uuid n m) (start_with (insert uuid n m)) v
      ≡ (if bytes_eq uuid v then n else get_or_default_shot_delay {W = W} m (start_with m) v)
unfolding get_or_default_shot_delay start_with
in_force_after W uuid v n m = ground (arith, lookup-insert uuid v n m, Option-cases (lookup v m))

module _ {S W : Type 0} (files : Files S) (json : Json5 ℕ) where
  saved_in_force :
      (fs fs' : S) (s : ShotDelays W) (u : Bytes) (r : ConfigLoadResult (Map Bytes ℕ))
      → load_map files json device_shot_delays_json fs ≡ done r
      → save_shot_delay files json fs s u ≡ done (fs', ok tt)
      → device_shot_delay_save files json fs
          (six_bytes u)
          (get_or_default_shot_delay (into_value [] r) s (six_bytes u))
        ≡ done (fs', ok tt)
  unfolding save_shot_delay persist_shot_delay
  saved_in_force fs fs' s u r h e = persisted fs' _ (
      sym (
        ap (λ o. o >>= λ cur. persist_shot_delay files json fs (six_bytes u) cur)
          (delay_in_force_loaded files json fs s (six_bytes u) r h))
      ∙ e)

  -- Let `save_shot_delay` succeed for the device `u`, where the file was loaded with the result `r`.
  -- Then a server that is started again has for this device the delay that was in force, and for
  -- every other device `v` the one that it would have had without the saving.
  pub saved_delay_restarted :
      (fs fs' : S) (s : ShotDelays W) (u v : Bytes) (r : ConfigLoadResult (Map Bytes ℕ))
      → All IsByte (six_bytes u)
      → load_map files json device_shot_delays_json fs ≡ done r
      → save_shot_delay files json fs s u ≡ done (fs', ok tt)
      → (start_shot_delays {W = W} files json fs' >>= λ t. read_shot_delay files json fs' t v)
        ≡ done (
            if bytes_eq (six_bytes u) (six_bytes v)
            then get_shot_delay (into_value [] r) s u
            else get_shot_delay {W = W} (into_value [] r) (start_with (into_value [] r)) v)
  unfolding get_shot_delay
  saved_delay_restarted fs fs' s u v r b h e =
      let n = get_or_default_shot_delay (into_value [] r) s (six_bytes u) in
      restarted W files json fs' (insert (six_bytes u) n (into_value [] r)) v (
        load_map-device_shot_delay_save files json fs fs' (six_bytes u) n r (length-six_bytes u) b h
          (saved_in_force fs fs' s u r h e))
      ∙ ap done (in_force_after W (six_bytes u) (six_bytes v) n (into_value [] r))
