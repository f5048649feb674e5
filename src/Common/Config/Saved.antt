-- ===== src/Common/Config/Saved.antt =====
-- What was saved is what is loaded.
use odyssey_desktop.Prelude.{
  Outcome-cases, Result-cases, ℕ, ◌≡◌, refl, ap, ◌∙◌, inl, inr, true, false, subst, [], Bytes,
  bytes_inst, arith, Outcome, done, panic, ok, done-injective, All, length,
}
use odyssey_desktop.Prelude.Assoc.{Map, insert}
use odyssey_desktop.Common.HexKeyMap.{serialize, deserialize}
use odyssey_desktop.Common.HexKeyMap.RoundTrip.{IsByte, IsKeyMap, deserialize-serialize}
use odyssey_desktop.Common.HexKeyMap.WellFormed.{deserialize-IsKeyMap, insert-IsKeyMap}
use odyssey_desktop.Common.Config.{
  ConfigFile, device_shot_delays_json, ConfigLoadResult, success, corrupted_using_default,
  not_found_using_default, into_value, Files, Json5, parse_map, load_map, write_map, save_map,
  device_shot_delay_save,
}

module _ {S T : Type 0} (files : Files S) (json : Json5 T) where
  parse_written :
      (path contents : Bytes) (m : Map Bytes T)
      → IsKeyMap 6 m
      → json.to_string (serialize m) ≡ ok contents
      → parse_map files json path contents ≡ done (success m)
  unfolding parse_map
  parse_written path contents m k e =
      rw (json.from_str-to_string (serialize m) contents e, parse_map)
        (rw (deserialize-serialize {E = Bytes} 6 m k) refl)

  load_written :
      (file : ConfigFile) (s : S) (dir contents : Bytes) (m : Map Bytes T)
      → IsKeyMap 6 m
      → files.config_dir s ≡ ok dir
      → json.to_string (serialize m) ≡ ok contents
      → (files.write s (files.join dir file) contents).1 ≡ ok tt
      → load_map files json file (files.write s (files.join dir file) contents).0 ≡ done (success m)
  unfolding load_map
  load_written file s dir contents m k d e w =
      let path = files.join dir file in
      rw (files.config_dir-write s path contents ∙ d, load_map)
        (rw (files.try_exists-write s path contents w, load_map)
          (rw (files.read_to_string-write s path contents w, load_map)
            (parse_written path contents m k e)))

  -- A map that was saved without an error is loaded again, with the same entries.
  pub load_map-save_map :
      (file : ConfigFile) (s : S) (m : Map Bytes T)
      → IsKeyMap 6 m
      → (save_map files json file s m).1 ≡ ok tt
      → load_map files json file (save_map files json file s m).0 ≡ done (success m)
  unfolding save_map write_map
  load_map-save_map file s m k w = elim (Result-cases (files.config_dir s)) [
    | inl (e, d) ↦ absurd (ground (arith, d, w))
    | inr (dir, d) ↦ elim (Result-cases (json.to_string (serialize m))) [
      | inl (e, t) ↦ absurd (ground (arith, d, t, w))
      | inr (contents, t) ↦
          rw (d, save_map)
            (rw (t, write_map) (load_written file s dir contents m k d t (ground (arith, d, t, w))))
    ]
  ]

  -- The map that is used, if the loading does not panic, has proper keys.
  abbrev HasKeyMap : Outcome (ConfigLoadResult (Map Bytes T)) → Type 0
  HasKeyMap panic = Unit
  HasKeyMap (done (success m)) = IsKeyMap 6 m
  HasKeyMap (done (corrupted_using_default path error)) = Unit
  HasKeyMap (done not_found_using_default) = Unit

  parse_map-HasKeyMap : (path contents : Bytes) → HasKeyMap (parse_map files json path contents)
  unfolding parse_map
  parse_map-HasKeyMap path contents = elim (Result-cases (json.from_str contents)) [
    | inl (e, f) ↦ rw (f, parse_map) tt
    | inr (entries, f) ↦ elim (Outcome-cases (deserialize 6 entries)) [
      | inl p ↦ rw (f, parse_map) (rw p tt)
      | inr (r, p) ↦ elim (Result-cases r) [
        | inl (e, q) ↦ rw (f, parse_map) (rw (p ∙ ap done q) tt)
        | inr (m, q) ↦
            rw (f, parse_map)
              (rw (p ∙ ap done q) (deserialize-IsKeyMap 6 entries m (p ∙ ap done q)))
      ]
    ]
  ]

  load_map-HasKeyMap : (file : ConfigFile) (s : S) → HasKeyMap (load_map files json file s)
  unfolding load_map
  load_map-HasKeyMap file s = elim (Result-cases (files.config_dir s)) [
    | inl (e, d) ↦ rw (d, load_map) tt
    | inr (dir, d) ↦ elim (Result-cases (files.try_exists s (files.join dir file))) [
      | inl (e, t) ↦ rw (d, load_map) (rw (t, load_map) tt)
      | inr (false, t) ↦ rw (d, load_map) (rw (t, load_map) tt)
      | inr (true, t) ↦ elim (Result-cases (files.read_to_string s (files.join dir file))) [
        | inl (e, c) ↦ rw (d, load_map) (rw (t, load_map) (rw (c, load_map) tt))
        | inr (contents, c) ↦
            rw (d, load_map)
              (rw (t, load_map)
                (rw (c, load_map) (parse_map-HasKeyMap (files.join dir file) contents)))
      ]
    ]
  ]

  used-IsKeyMap :
      (r : ConfigLoadResult (Map Bytes T)) → HasKeyMap (done r) → IsKeyMap 6 (into_value [] r)
  unfolding into_value
  used-IsKeyMap (success m) h = h
  used-IsKeyMap (corrupted_using_default path error) h = tt
  used-IsKeyMap not_found_using_default h = tt

-- Let the delays be loaded with the result `r`, without a panic, and let a delay be saved for a
-- UUID of six bytes without an error. Then the next load finds exactly the delays of `r` with this
-- one changed or added; where `r` was no success, so that there were no delays, only this one.
pub load_map-device_shot_delay_save :
    {S : Type 0} (files : Files S) (json : Json5 ℕ) (s s' : S) (uuid : Bytes) (delay : ℕ)
    (r : ConfigLoadResult (Map Bytes ℕ))
    → length uuid ≡ 6
    → All IsByte uuid
    → load_map files json device_shot_delays_json s ≡ done r
    → device_shot_delay_save files json s uuid delay ≡ done (s', ok tt)
    → load_map files json device_shot_delays_json s'
      ≡ done (success (insert uuid delay (into_value [] r)))
unfolding device_shot_delay_save
load_map-device_shot_delay_save files json s s' uuid delay r l b h e =
    let m = insert uuid delay (into_value [] r) in
    let k = insert-IsKeyMap 6 uuid delay (into_value [] r) l b (
      used-IsKeyMap files json r (
        subst (HasKeyMap files json) h
          (load_map-HasKeyMap files json device_shot_delays_json s))) in
    let saved : save_map files json device_shot_delays_json s m ≡ (s', ok tt) =
      done-injective (rw h at e) in
    subst (λ x. load_map files json device_shot_delays_json x ≡ done (success m))
      (ap (λ p. p.0) saved)
      (load_map-save_map files json device_shot_delays_json s m k (ap (λ p. p.1) saved))
