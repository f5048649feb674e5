-- ===== src/Server/Accessories/Tests.antt =====
-- A manager of two accessories, and the theorems at it. A peripheral is what its set-up gives.
use odyssey_desktop.Prelude.{
  ℕ, ◌≡◌, refl, true, false, none, some, [], ◌∷◌, Bytes, bytes_inst, arith, if◌then◌else◌,
}
use mathlib.Core.Option
use odyssey_desktop.Prelude.Assoc.{Map, lookup}
use odyssey_desktop.Common.Device.{Device}
use odyssey_desktop.Common.Accessory.{AccessoryType, AccessoryInfo, AccessoryInfoMap}
use odyssey_desktop.Server.Keyed.{find}
use odyssey_desktop.Server.Hub.{device_key}
use odyssey_desktop.Interface.Accessories.{key_to_proto}
use odyssey_desktop.Server.Accessories.{
  Manager, Attempt, contains_key, or_false, info_changed, scan_complete, notified, is_shot,
}
use odyssey_desktop.Server.Accessories.Statuses.{
  info_changed_lem, scan_complete_lem, status_after, listens,
}
use odyssey_desktop.Server.Accessories.Shots.{notified_lem}

abbrev mac : Bytes
mac = 9 ∷ 9 ∷ 9 ∷ 9 ∷ 9 ∷ 9 ∷ []

abbrev other_mac : Bytes
other_mac = 8 ∷ 9 ∷ 9 ∷ 9 ∷ 9 ∷ 9 ∷ []

abbrev uuid : Bytes
uuid = 1 ∷ 2 ∷ 3 ∷ 4 ∷ 5 ∷ 6 ∷ []

abbrev mag : AccessoryInfo
mag = record {
  name = [];
  ty = AccessoryType.mantis_x;
  assignment = some (key_to_proto uuid);
  features = [];
}

abbrev infos : AccessoryInfoMap
infos = (mac, mag) ∷ (other_mac, mag) ∷ []

abbrev manager : Manager Attempt
manager = record {
  info_map = infos;
  last_statuses = (mac, true) ∷ (other_mac, true) ∷ [];
  periph_cache = [];
}

abbrev good : Attempt
good = record {
  connected_before = false;
  connect = true;
  discover_services = true;
  characteristic = true;
  subscribe = true;
  notifications = true;
  connected_after = true;
}

abbrev found : Map Bytes Attempt
found = (mac, good) ∷ []

scan_complete-manager :
    (scan_complete (λ (a : Attempt). a) manager found).1
    ≡ ((mac, (mag, true)) ∷ (other_mac, (mag, false)) ∷ [], (mac, AccessoryType.mantis_x) ∷ [])
unfolding scan_complete
scan_complete-manager = refl

scan_complete_lem_example :
    (lookup mac (scan_complete (λ (a : Attempt). a) manager found).1.0
      ≡ Option.map
          (λ info. (
            info,
            or_false (
                status_after
                  (λ (a : Attempt). a)
                  (lookup mac found)
                  (lookup mac manager.last_statuses)),
          ))
          (lookup mac infos))
    × (lookup mac (scan_complete (λ (a : Attempt). a) manager found).1.1 ≡ (
        if listens (λ (a : Attempt). a) (lookup mac found)
        then Option.map (λ info. AccessoryInfo.ty info) (lookup mac infos)
        else none))
scan_complete_lem_example = scan_complete_lem (λ (a : Attempt). a) manager found mac

info_changed_lem_example :
    (lookup mac (info_changed manager ((mac, mag) ∷ [])).1
      ≡ Option.map
          (λ info. (info, or_false (lookup mac manager.last_statuses)))
          (lookup mac ((mac, mag) ∷ [])))
    × (lookup mac (info_changed manager ((mac, mag) ∷ [])).0.last_statuses
        ≡ Option.map
            (λ (info : AccessoryInfo). or_false (lookup mac manager.last_statuses))
            (lookup mac ((mac, mag) ∷ [])))
    × (lookup mac (info_changed manager ((mac, mag) ∷ [])).0.periph_cache
        ≡ (if contains_key ((mac, mag) ∷ []) mac then lookup mac manager.periph_cache else none))
info_changed_lem_example = info_changed_lem manager ((mac, mag) ∷ []) mac

mag-found : lookup mac infos ≡ some mag
unfolding lookup
mag-found = refl

mag-assigned : mag.assignment ≡ some (key_to_proto uuid)
mag-assigned = refl

notified_lem_example : notified {S = ℕ} infos [] mac AccessoryType.mantis_x true (1 ∷ []) ≡ (
    if is_shot AccessoryType.mantis_x (1 ∷ [])
    then Option.map (λ (d : Device × ℕ). d.0) (find device_key uuid [])
    else none)
notified_lem_example =
    notified_lem infos [] mac uuid AccessoryType.mantis_x (1 ∷ []) mag
      (record { six = refl; bytes = omega arith }) mag-found mag-assigned
