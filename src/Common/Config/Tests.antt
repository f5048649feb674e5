-- ===== src/Common/Config/Tests.antt =====
-- A file system of two files by their names, a codec for delays, and the theorems at them.
use odyssey_desktop.Prelude.{
  if◌then◌else◌, ◌==◌, ℕ, zero, suc, ◌≡◌, refl, ap, sym, ◌∙◌, Bool, true, false, Option, none, some,
  List, [], ◌∷◌, ◌++◌, Bytes, bytes_inst, arith, map, done, Result, ok, err, ok-injective, strip_0x,
  u8_from_hex, slice,
}
use mathlib.Core.List.{append_assoc, append-nil}
use odyssey_desktop.Prelude.Assoc.{Map, insert, lookup, lookup-insert}
use odyssey_desktop.Common.HexKeyMap.{serialize, deserialize}
use odyssey_desktop.Common.Config.{
  screen_calibrations, screen_json, ConfigFile, device_shot_delays_json, device_offsets_json,
  accessory_map_json, screen_json, success, Files, Json5, load_map, device_shot_delay_save,
}
use odyssey_desktop.Common.Config.Screens.{screen_calibrations_lem, found_from, failed_from}
use odyssey_desktop.Common.Config.Saved.{load_map-device_shot_delay_save}

abbrev file_name : Bytes → ConfigFile → Bytes
file_name dir device_shot_delays_json = 1 ∷ dir
file_name dir device_offsets_json = 2 ∷ dir
file_name dir accessory_map_json = 3 ∷ dir
file_name dir (screen_json i) = 4 ∷ i ∷ dir

abbrev is_there : Option Bytes → Bool
is_there none = false
is_there (some contents) = true

abbrev contents_of : Option Bytes → Result Bytes Bytes
contents_of none = err []
contents_of (some contents) = ok contents

pub lookup-written : (s : Map Bytes Bytes) (p c : Bytes) → lookup p (insert p c s) ≡ some c
lookup-written s p c = lookup-insert p p c s ∙ ground (arith, bytes_inst.beq_iff p p)

unfoldable pub disk : Files (Map Bytes Bytes)
unfolding insert lookup
disk = record {
  config_dir = λ s. ok (b'/' ∷ []);
  join = file_name;
  parent = λ p. none;
  try_exists = λ s p. ok (is_there (lookup p s));
  read_to_string = λ s p. contents_of (lookup p s);
  write = λ s p c. (insert p c s, ok tt);
  create_dir_all = λ s p. (s, ok tt);
  try_exists-write = λ s p c w. ap (λ o. ok (is_there o)) (lookup-written s p c);
  read_to_string-write = λ s p c w. ap contents_of (lookup-written s p c);
  config_dir-write = λ s p c. refl;
}

-- An entry is its key, each byte after a 1, and then its value after a 0.
abbrev write_key : Bytes → Bytes → Bytes
write_key [] rest = rest
write_key (b ∷ key) rest = 1 ∷ b ∷ write_key key rest

abbrev write_entries : List (Bytes × ℕ) → Bytes
write_entries [] = []
write_entries ((key, value) ∷ es) = write_key key (0 ∷ value ∷ write_entries es)

abbrev read_entries : Bytes → Bytes → List (Result (Bytes × ℕ) Bytes)
read_entries key [] = []
read_entries key (t ∷ []) = err (t ∷ []) ∷ []
read_entries key (zero ∷ value ∷ rest) = ok (key, value) ∷ read_entries [] rest
read_entries key (suc t ∷ b ∷ rest) = read_entries (key ++ b ∷ []) rest

read-write_key :
    (acc key : Bytes) (value : ℕ) (rest : Bytes)
    → read_entries acc (write_key key (0 ∷ value ∷ rest))
      ≡ ok (acc ++ key, value) ∷ read_entries [] rest
read-write_key acc [] value rest =
    ap (λ k. ok (k, value) ∷ read_entries [] rest) (sym (append-nil acc))
read-write_key acc (b ∷ key) value rest =
    read-write_key (acc ++ b ∷ []) key value rest
    ∙ ap (λ k. ok (k, value) ∷ read_entries [] rest) (append_assoc acc (b ∷ []) key)

pub read-write_entries : (es : List (Bytes × ℕ)) → read_entries [] (write_entries es) ≡ map ok es
read-write_entries [] = refl
read-write_entries ((key, value) ∷ es) =
    read-write_key [] key value (write_entries es)
    ∙ ap (λ l. ok (key, value) ∷ l) (read-write_entries es)

abbrev pub tagged : Json5 ℕ
tagged = record {
  from_str = λ txt. ok (read_entries [] txt);
  to_string = λ es. ok (write_entries es);
  visit_error = λ e. [];
  from_str-to_string = λ es txt e.
      ap (λ t. ok (read_entries [] t)) (sym (ok-injective e)) ∙ ap ok (read-write_entries es);
}

abbrev pub uuid : Bytes
uuid = 1 ∷ 2 ∷ 3 ∷ 4 ∷ 5 ∷ 255 ∷ []

abbrev pub other : Bytes
other = 9 ∷ 9 ∷ 9 ∷ 9 ∷ 9 ∷ 9 ∷ []

-- The disk with the file of the delays `m`.
unfoldable pub disk_of : Map Bytes ℕ → Map Bytes Bytes
unfolding serialize
disk_of m = (file_name (b'/' ∷ []) device_shot_delays_json, write_entries (serialize m)) ∷ []

-- A delay is added to the file that holds another one.
load_map-device_shot_delay_save_example :
    load_map disk tagged device_shot_delays_json (disk_of ((other, 7) ∷ (uuid, 30) ∷ []))
    ≡ done (success ((other, 7) ∷ (uuid, 30) ∷ []))
unfolding device_shot_delay_save load_map deserialize strip_0x u8_from_hex slice disk disk_of
load_map-device_shot_delay_save_example =
    load_map-device_shot_delay_save disk tagged (disk_of ((other, 7) ∷ []))
      (disk_of ((other, 7) ∷ (uuid, 30) ∷ [])) uuid 30 (success ((other, 7) ∷ [])) refl
      (omega arith, (omega arith, (omega arith, (omega arith, (omega arith, (omega arith, tt))))))
      refl refl

-- A text that begins with a 5 stands for a calibration.
abbrev parse_five : Bytes → Result ℕ Bytes
parse_five [] = err []
parse_five (x ∷ txt) = if x == 5 then ok x else err (x ∷ txt)

-- The screens 0 and 2 of three have files, and the second is corrupted.
abbrev screens : Map Bytes Bytes
screens =
    (file_name (b'/' ∷ []) (screen_json 0), 5 ∷ [])
    ∷ (file_name (b'/' ∷ []) (screen_json 2), 6 ∷ [])
    ∷ []

screen_calibrations_lem_example :
    ((screen_calibrations disk parse_five 3 screens).calibrations ≡ (0, 5) ∷ [])
    × ((screen_calibrations disk parse_five 3 screens).corrupted_screens
        ≡ (2, (4 ∷ 2 ∷ b'/' ∷ [], 6 ∷ [])) ∷ [])
unfolding disk found_from failed_from
screen_calibrations_lem_example = screen_calibrations_lem disk parse_five 3 screens (b'/' ∷ []) refl
