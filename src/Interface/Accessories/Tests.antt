-- ===== src/Interface/Accessories/Tests.antt =====
-- A map of two accessories, and the theorems at it.
use odyssey_desktop.Prelude.{
  ◌≡◌, refl, true, false, none, some, [], ◌∷◌, arith, Bytes, bytes_inst, done,
}
use odyssey_desktop.Prelude.Assoc.{lookup}
use odyssey_desktop.Prelude.Assoc.Collect.{Distinct}
use odyssey_desktop.Common.Device.{copy_prefix}
use odyssey_desktop.Common.Accessory.{
  AccessoryType, AccessoryFeature, AccessoryInfo, AccessoryMap, AccessoryInfoMap,
}
use odyssey_desktop.Interface.Accessories.{
  key_to_proto, from_le_bytes, map_to_proto, map_from_proto,
}
use odyssey_desktop.Interface.Accessories.RoundTrip.{IsMac, IsInfo, map_from_proto-map_to_proto}

abbrev mag : AccessoryInfo
mag = record {
  name = b'm' ∷ [];
  ty = AccessoryType.dry_fire_mag;
  assignment = some 0x060504030201;
  features = AccessoryFeature.impact ∷ [];
}

abbrev mantis : AccessoryInfo
mantis = record { name = []; ty = AccessoryType.mantis_x; assignment = none; features = [] }

abbrev first_mac : Bytes
first_mac = 1 ∷ 2 ∷ 3 ∷ 4 ∷ 5 ∷ 6 ∷ []

abbrev second_mac : Bytes
second_mac = 255 ∷ 0 ∷ 0 ∷ 0 ∷ 0 ∷ 1 ∷ []

key_to_proto-first : key_to_proto first_mac ≡ 0x060504030201
unfolding key_to_proto from_le_bytes copy_prefix
key_to_proto-first = refl

first-IsMac : IsMac first_mac
first-IsMac = record { six = refl; bytes = omega arith }

second-IsMac : IsMac second_mac
second-IsMac = record { six = refl; bytes = omega arith }

mag-IsInfo : IsInfo mag
mag-IsInfo = record { assignment = λ e. cc; features = omega arith }

mantis-IsInfo : IsInfo mantis
mantis-IsInfo = record { assignment = λ e. cc; features = omega arith }

abbrev statuses : AccessoryMap
statuses = (first_mac, (mag, true)) ∷ (second_mac, (mantis, false)) ∷ []

abbrev infos : AccessoryInfoMap
infos = (first_mac, mag) ∷ (second_mac, mantis) ∷ []

statuses-Distinct : Distinct statuses
unfolding lookup
statuses-Distinct = (refl, (refl, tt))

infos-Distinct : Distinct infos
unfolding lookup
infos-Distinct = (refl, (refl, tt))

map_from_proto-map_to_proto_example : map_from_proto (map_to_proto statuses) ≡ done statuses
map_from_proto-map_to_proto_example = map_from_proto-map_to_proto statuses (record {
  distinct = statuses-Distinct;
  macs = (first-IsMac, (second-IsMac, tt));
  infos = (mag-IsInfo, (mantis-IsInfo, tt));
})
