-- ===== src/Server/Startup.antt =====
-- odyssey_hub_server/src/lib.rs: the corrupted configuration files that `run_server` announces.
use odyssey_desktop.Prelude.{
  ℕ, ◌≡◌, ◌↔◌, true, false, none, some, List, [], ◌∷◌, ◌++◌, Bytes, arith,
}
use odyssey_desktop.Prelude.Assoc.{Map}
use odyssey_desktop.Common.Config.{
  ConfigFileType, device_shot_delays_file, device_offsets_file, screen_calibration_file,
  accessory_map_file, ConfigCorruptionEvent, ConfigLoadResult, corruption_info, is_corrupted,
  ScreenCalibrations,
}

corruption_event : ConfigFileType → Bytes × Bytes → ConfigCorruptionEvent
corruption_event file_type (path, error) = record {
  file_type = file_type;
  file_path = path;
  error_message = error;
  using_default = true;
}

corruption_of : {T : Type 0} → ConfigFileType → ConfigLoadResult T → List ConfigCorruptionEvent
unfolding corruption_info corruption_event
corruption_of file_type result = elim (corruption_info result) [
  | none ↦ []
  | some info ↦ corruption_event file_type info ∷ []
]

screen_corruptions : List (ℕ × (Bytes × Bytes)) → List ConfigCorruptionEvent
unfolding corruption_event
screen_corruptions [] = []
screen_corruptions ((screen_id, info) ∷ screens) =
    corruption_event screen_calibration_file info ∷ screen_corruptions screens

append_nil : {A : Type 0} (xs ys : List A) → (xs ++ ys ≡ []) ↔ ((xs ≡ []) × (ys ≡ []))
append_nil [] ys = ground arith
append_nil (x ∷ xs) ys = ground arith

corruption_of_none :
    {T : Type 0} (file_type : ConfigFileType) (r : ConfigLoadResult T)
    → (corruption_of file_type r ≡ []) ↔ (is_corrupted r ≡ false)
unfolding corruption_of is_corrupted corruption_info
corruption_of_none file_type r = ground arith

screen_corruptions_none : (l : List (ℕ × (Bytes × Bytes))) → (screen_corruptions l ≡ []) ↔ (l ≡ [])
unfolding screen_corruptions
screen_corruptions_none [] = ground arith
screen_corruptions_none ((i, info) ∷ l) = ground arith

module _ {C O A : Type 0} where
  startup_corruptions :
      ScreenCalibrations C
      → ConfigLoadResult (Map Bytes O)
      → ConfigLoadResult (Map Bytes ℕ)
      → ConfigLoadResult (Map Bytes A)
      → List ConfigCorruptionEvent
  unfolding corruption_of screen_corruptions
  startup_corruptions screens offsets delays accessories =
      screen_corruptions screens.corrupted_screens
      ++ (corruption_of device_offsets_file offsets
          ++ (corruption_of device_shot_delays_file delays
              ++ corruption_of accessory_map_file accessories))

  -- Nothing is announced exactly if no screen and no file was corrupted.
  startup_corruptions_none :
      (screens : ScreenCalibrations C) (offsets : ConfigLoadResult (Map Bytes O))
      (delays : ConfigLoadResult (Map Bytes ℕ)) (accessories : ConfigLoadResult (Map Bytes A))
      → (startup_corruptions screens offsets delays accessories ≡ []) ↔ (
          (screens.corrupted_screens ≡ [])
          × (is_corrupted offsets ≡ false)
          × (is_corrupted delays ≡ false)
          × (is_corrupted accessories ≡ false))
  unfolding startup_corruptions
  startup_corruptions_none screens offsets delays accessories =
      let a = corruption_of device_offsets_file offsets in
      let b = corruption_of device_shot_delays_file delays in
      let c = corruption_of accessory_map_file accessories in
      ground (
        arith,
        append_nil (screen_corruptions screens.corrupted_screens) (a ++ (b ++ c)),
        append_nil a (b ++ c),
        append_nil b c,
        screen_corruptions_none screens.corrupted_screens,
        corruption_of_none device_offsets_file offsets,
        corruption_of_none device_shot_delays_file delays,
        corruption_of_none accessory_map_file accessories,
      )
