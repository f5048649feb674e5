-- ===== src/Server/AccessoryMap/Tests.antt =====
-- An update that deletes one of two accessories, and the theorem at it.
use odyssey_desktop.Prelude.{
  ◌≡◌, refl, true, false, none, some, [], ◌∷◌, arith, Bytes, bytes_inst, done, ok,
}
use odyssey_desktop.Prelude.Assoc.{lookup}
use odyssey_desktop.Prelude.Assoc.Collect.{Distinct}
use odyssey_desktop.Common.Accessory.{AccessoryType, AccessoryInfo, AccessoryMap, AccessoryInfoMap}
use odyssey_desktop.Interface.Accessories.{info_map_to_proto}
use odyssey_desktop.Interface.Accessories.RoundTrip.{
  IsMac, IsInfo, info_map_from_proto-info_map_to_proto,
}
use odyssey_desktop.Server.AccessoryMap.{Update, merge, update_accessory_info_map}
use odyssey_desktop.Server.AccessoryMap.Merge.{merged, update_accessory_info_map_lem}

abbrev plain : AccessoryInfo
plain = record { name = []; ty = AccessoryType.mantis_x; assignment = none; features = [] }

abbrev kept_mac : Bytes
kept_mac = 1 ∷ 2 ∷ 3 ∷ 4 ∷ 5 ∷ 6 ∷ []

abbrev deleted_mac : Bytes
deleted_mac = 9 ∷ 2 ∷ 3 ∷ 4 ∷ 5 ∷ 6 ∷ []

abbrev before : AccessoryMap
before = (kept_mac, (plain, true)) ∷ (deleted_mac, (plain, false)) ∷ []

abbrev wanted : AccessoryInfoMap
wanted = (kept_mac, plain) ∷ []

-- The deleted accessory is still there.
merge-wanted : merge wanted before ≡ before
unfolding merge
merge-wanted = refl

kept-IsMac : IsMac kept_mac
kept-IsMac = record { six = refl; bytes = omega arith }

plain-IsInfo : IsInfo plain
plain-IsInfo = record { assignment = λ e. cc; features = omega arith }

wanted-Distinct : Distinct wanted
unfolding lookup
wanted-Distinct = (refl, tt)

update_accessory_info_map_lem_example :
    (u : Update) × (update_accessory_info_map
        (λ m. ok tt)
        (λ m. some m)
        before
        (info_map_to_proto wanted)
      ≡ done (ok tt, u))
    × (lookup deleted_mac u.accessory_map ≡ merged wanted before deleted_mac)
    × (u.broadcast ≡ some u.accessory_map)
    × (u.info_sent ≡ some wanted)
update_accessory_info_map_lem_example =
    update_accessory_info_map_lem (λ m. ok tt) (λ m. some m) before (info_map_to_proto wanted)
      wanted wanted deleted_mac
      (info_map_from_proto-info_map_to_proto wanted wanted-Distinct (kept-IsMac, tt)
        (plain-IsInfo, tt))
      refl refl wanted-Distinct
