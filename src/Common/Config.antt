-- ===== src/Common/Config.antt =====
-- odyssey_hub_common/src/config.rs: the configuration files. The file system, the JSON5 codec and the
-- directory of the application are parameters; `S` is the state of the file system.
pub mod Saved
pub mod Screens
pub mod Tests
use odyssey_desktop.Prelude.{
  ℕ, ◌%◌, ◌^◌, zero, suc, ◌+◌, ◌≡◌, Bool, true, false, Option, none, some, List, [], ◌∷◌, ◌++◌,
  Bytes, bytes_inst, ltb, length, map, if◌then◌else◌, Outcome, done, panic, ◌>>=◌, Result, ok, err,
}
use odyssey_desktop.Prelude.Assoc.{Map, insert}
use odyssey_desktop.Common.HexKeyMap.{VisitError, serialize, deserialize}

pub data ConfigFileType : Type 0 where
  device_shot_delays_file device_offsets_file screen_calibration_file accessory_map_file :
      ConfigFileType

pub record ConfigCorruptionEvent : Type 0 where
  pub file_type : ConfigFileType
  pub file_path : Bytes
  pub error_message : Bytes
  pub using_default : Bool

pub data ConfigLoadResult (T : Type 0) : Type 0 where
  success : T → ConfigLoadResult T
  corrupted_using_default : Bytes → Bytes → ConfigLoadResult T
  not_found_using_default : ConfigLoadResult T

-- `into_value`, with the type's default.
unfoldable pub into_value : {T : Type 0} → T → ConfigLoadResult T → T
into_value default (success val) = val
into_value default (corrupted_using_default path error) = default
into_value default not_found_using_default = default

unfoldable pub is_corrupted : {T : Type 0} → ConfigLoadResult T → Bool
is_corrupted (success val) = false
is_corrupted (corrupted_using_default path error) = true
is_corrupted not_found_using_default = false

unfoldable pub corruption_info : {T : Type 0} → ConfigLoadResult T → Option (Bytes × Bytes)
corruption_info (success val) = none
corruption_info (corrupted_using_default path error) = some (path, error)
corruption_info not_found_using_default = none

-- The files by their names: `device_shot_delays.json` and so on, and `screens/screen_{i}.json`.
pub data ConfigFile : Type 0 where
  device_shot_delays_json device_offsets_json accessory_map_json : ConfigFile
  screen_json : ℕ → ConfigFile

-- What is used of `app_dirs2` and `tokio::fs`, and what they document: a file that was written is
-- there and has the contents that were written, and the application's directory stays.
pub record Files (S : Type 0) : Type 0 where
  pub config_dir : S → Result Bytes Bytes
  pub join : Bytes → ConfigFile → Bytes
  pub parent : Bytes → Option Bytes
  pub try_exists : S → Bytes → Result Bool Bytes
  pub read_to_string : S → Bytes → Result Bytes Bytes
  pub write : S → Bytes → Bytes → S × Result (Unit {0}) Bytes
  pub create_dir_all : S → Bytes → S × Result (Unit {0}) Bytes
  pub try_exists-write :
      (s : S) (p c : Bytes) → (write s p c).1 ≡ ok tt → try_exists (write s p c).0 p ≡ ok true
  pub read_to_string-write :
      (s : S) (p c : Bytes) → (write s p c).1 ≡ ok tt → read_to_string (write s p c).0 p ≡ ok c
  pub config_dir-write : (s : S) (p c : Bytes) → config_dir (write s p c).0 ≡ config_dir s

-- `json5` on a map with values of type `T`, as the entries that serde is given or yields.
pub record Json5 (T : Type 0) : Type 0 where
  pub from_str : Bytes → Result (List (Result (Bytes × T) Bytes)) Bytes
  pub to_string : List (Bytes × T) → Result Bytes Bytes
  pub visit_error : VisitError Bytes → Bytes
  pub from_str-to_string :
      (es : List (Bytes × T)) (txt : Bytes) → to_string es ≡ ok txt → from_str txt ≡ ok (map ok es)

module _ {S T : Type 0} (files : Files S) (json : Json5 T) where
  -- `json5::from_str::<HexKeyMapN<T, 6>>` and the two results of it.
  unfoldable pub parse_map : Bytes → Bytes → Outcome (ConfigLoadResult (Map Bytes T))
  parse_map path contents = elim (json.from_str contents) [
    | err e ↦ done (corrupted_using_default path e)
    | ok entries ↦ deserialize 6 entries >>= λ r. elim r [
      | err e ↦ done (corrupted_using_default path (json.visit_error e))
      | ok m ↦ done (success m)
    ]
  ]

  -- `device_shot_delays_async`, `device_offsets_async` and `accessory_map_async`, by the file.
  unfoldable pub load_map : ConfigFile → S → Outcome (ConfigLoadResult (Map Bytes T))
  unfolding parse_map
  load_map file s = elim (files.config_dir s) [
    | err e ↦ done not_found_using_default
    | ok dir ↦
        let path = files.join dir file in
        elim (files.try_exists s path) [
          | err e ↦ done not_found_using_default
          | ok there ↦ elim there [
            | false ↦ done not_found_using_default
            | true ↦ elim (files.read_to_string s path) [
              | err e ↦ done (corrupted_using_default path e)
              | ok contents ↦ parse_map path contents
            ]
          ]
        ]
  ]

  -- The contents of the map are written to a path.
  unfoldable pub write_map : S → Bytes → Map Bytes T → S × Result (Unit {0}) Bytes
  write_map s path m = elim (json.to_string (serialize m)) [
    | err e ↦ (s, err e)
    | ok contents ↦ files.write s path contents
  ]

  -- `device_shot_delays_save_async` and `device_offsets_save_async`.
  unfoldable pub save_map : ConfigFile → S → Map Bytes T → S × Result (Unit {0}) Bytes
  unfolding write_map
  save_map file s m = elim (files.config_dir s) [
    | err e ↦ (s, err e)
    | ok dir ↦ write_map s (files.join dir file) m
  ]

  -- `accessory_map_save_async`, which makes the directory first.
  unfoldable pub accessory_map_save : S → Map Bytes T → S × Result (Unit {0}) Bytes
  unfolding write_map
  accessory_map_save s m = elim (files.config_dir s) [
    | err e ↦ (s, err e)
    | ok dir ↦
        let path = files.join dir accessory_map_json in
        elim (files.parent path) [
          | none ↦ write_map s path m
          | some folder ↦
              let (s', r) = files.create_dir_all s folder in
              elim r [ err e ↦ (s', err e) | ok t ↦ write_map s' path m ]
        ]
  ]

-- `device_shot_delay_save_async`: the delays that are saved are read, changed and saved.
unfoldable pub device_shot_delay_save :
    {S : Type 0} → Files S → Json5 ℕ → S → Bytes → ℕ → Outcome (S × Result (Unit {0}) Bytes)
unfolding load_map into_value save_map insert
device_shot_delay_save files json s uuid delay =
    load_map files json device_shot_delays_json s >>= λ r.
    done (save_map files json device_shot_delays_json s (insert uuid delay (into_value [] r)))

pub record ScreenCalibrations (C : Type 0) : Type 0 where
  pub calibrations : List (ℕ × C)
  pub corrupted_screens : List (ℕ × (Bytes × Bytes))

-- `screen_calibrations_async`; `parse` is `json5::from_str` of a calibration, and `capacity` is
-- `MAX_SCREEN_ID + 1` of ats_common.
module _ {S C : Type 0} (files : Files S) (parse : Bytes → Result C Bytes) (capacity : ℕ) where
  -- `try_push`, whose failure is ignored.
  unfoldable pub try_push : ℕ × C → List (ℕ × C) → List (ℕ × C)
  try_push c out = if ltb (length out) capacity then out ++ c ∷ [] else out

  unfoldable pub load_screen : S → Bytes → ℕ → ScreenCalibrations C → ScreenCalibrations C
  unfolding try_push
  load_screen s dir i acc =
      let path = files.join dir (screen_json i) in
      elim (files.try_exists s path) [
        | err e ↦ acc
        | ok there ↦ elim there [
          | false ↦ acc
          | true ↦ elim (files.read_to_string s path) [
            | err e ↦ record acc {
              corrupted_screens = acc.corrupted_screens ++ (i % 2 ^ 8, (path, e)) ∷ [];
            }
            | ok txt ↦ elim (parse txt) [
              | err e ↦ record acc {
                corrupted_screens = acc.corrupted_screens ++ (i % 2 ^ 8, (path, e)) ∷ [];
              }
              | ok cal ↦ record acc { calibrations = try_push (i % 2 ^ 8, cal) acc.calibrations }
            ]
          ]
        ]
      ]

  -- The screens from `i` on, with `left` rounds left.
  unfoldable pub load_screens_from : S → Bytes → ℕ → ℕ → ScreenCalibrations C → ScreenCalibrations C
  unfolding load_screen
  load_screens_from s dir zero i acc = acc
  load_screens_from s dir (suc left) i acc =
      load_screens_from s dir left (i + 1) (load_screen s dir i acc)

  unfoldable pub screen_calibrations : S → ScreenCalibrations C
  unfolding load_screens_from
  screen_calibrations s =
      let empty : ScreenCalibrations C = record { calibrations = []; corrupted_screens = [] } in
      elim (files.config_dir s) [
        | err e ↦ empty
        | ok dir ↦ load_screens_from s dir capacity 0 empty
      ]
