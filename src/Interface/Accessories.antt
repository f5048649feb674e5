-- ===== src/Interface/Accessories.antt =====
-- odyssey_hub_server_interface/src/lib.rs, the accessories and the maps of them. On the wire a MAC
-- address is the little-endian number of its bytes.
pub mod RoundTrip
pub mod Tests
use odyssey_desktop.Prelude.{
  ℕ, zero, suc, ◌+◌, ◌*◌, ◌/◌, ◌%◌, Bool, Option, none, some, List, [], ◌∷◌, Bytes, ◌==◌,
  if◌then◌else◌, not, take, replicate, map, Outcome, done, ◌>>=◌, unwrap, bytes_inst, nat_eq,
}
use odyssey_desktop.Prelude.Assoc.{Map}
use odyssey_desktop.Prelude.Assoc.Collect.{insert_all}
use odyssey_desktop.Common.Device.{copy_prefix}
use odyssey_desktop.Common.Accessory.{
  AccessoryType, AccessoryFeature, AccessoryInfo, AccessoryMap, AccessoryInfoMap,
}
use odyssey_desktop.Interface.Proto

-- `u64::from_le_bytes` and the first `n` bytes of `u64::to_le_bytes`.
pub from_le_bytes : Bytes → ℕ
from_le_bytes [] = 0
from_le_bytes (b ∷ bs) = b + 256 * from_le_bytes bs

pub to_le_bytes : ℕ → ℕ → Bytes
to_le_bytes zero n = []
to_le_bytes (suc k) n = n % 256 ∷ to_le_bytes k (n / 256)

pub key_to_proto : Bytes → ℕ
unfolding from_le_bytes
key_to_proto k6 = from_le_bytes (copy_prefix (replicate 8 0) k6 6)

pub key_from_proto : ℕ → Bytes
unfolding to_le_bytes
key_from_proto k64 =
    let buf = copy_prefix (replicate 8 0) (take 6 (to_le_bytes 8 k64)) 6 in take 6 buf

pub feature_to_proto : AccessoryFeature → Proto.AccessoryFeature
feature_to_proto AccessoryFeature.impact = Proto.AccessoryFeature.impact

pub feature_from_proto : Proto.AccessoryFeature → AccessoryFeature
feature_from_proto Proto.AccessoryFeature.impact = AccessoryFeature.impact

pub type_to_proto : AccessoryType → Proto.AccessoryType
type_to_proto AccessoryType.dry_fire_mag = Proto.AccessoryType.dry_fire_mag
type_to_proto AccessoryType.mantis_x = Proto.AccessoryType.mantis_x

pub type_from_proto : Proto.AccessoryType → AccessoryType
type_from_proto Proto.AccessoryType.dry_fire_mag = AccessoryType.dry_fire_mag
type_from_proto Proto.AccessoryType.mantis_x = AccessoryType.mantis_x

pub info_to_proto : AccessoryInfo → Proto.AccessoryInfo
unfolding type_to_proto feature_to_proto
info_to_proto v = record {
  name = v.name;
  ty = Proto.accessory_type_number (type_to_proto v.ty);
  assignment = elim v.assignment [ none ↦ 0 | some a ↦ a ];
  features = map (λ f. Proto.accessory_feature_number (feature_to_proto f)) v.features;
}

-- A set of features takes one in: there is only one feature.
add_feature : List AccessoryFeature → AccessoryFeature → List AccessoryFeature
add_feature [] f = f ∷ []
add_feature (g ∷ fs) f = g ∷ fs

pub features_from_proto : List AccessoryFeature → List ℕ → Outcome (List AccessoryFeature)
unfolding add_feature feature_from_proto
features_from_proto set [] = done set
features_from_proto set (n ∷ ns) = do
  f ← unwrap (Proto.accessory_feature_of n)
  features_from_proto (add_feature set (feature_from_proto f)) ns

pub info_from_proto : Proto.AccessoryInfo → Outcome AccessoryInfo
unfolding features_from_proto type_from_proto
info_from_proto v = do
  ty ← unwrap (Proto.accessory_type_of v.ty)
  features ← features_from_proto [] v.features
  done (record {
    name = v.name;
    ty = type_from_proto ty;
    assignment = if not (v.assignment == 0) then some v.assignment else none;
    features = features;
  })

-- The entries that the loops over a map insert.
status_to_proto : Bytes × (AccessoryInfo × Bool) → ℕ × Proto.AccessoryStatus
unfolding key_to_proto info_to_proto
status_to_proto (k6, (info, connected)) =
    (key_to_proto k6, record { accessory = some (info_to_proto info); connected = connected })

pub map_to_proto : AccessoryMap → Map ℕ Proto.AccessoryStatus
unfolding insert_all status_to_proto
map_to_proto m = insert_all [] (map status_to_proto m)

statuses_from_proto : Map ℕ Proto.AccessoryStatus → Outcome (List (Bytes × (AccessoryInfo × Bool)))
unfolding key_from_proto info_from_proto
statuses_from_proto [] = done []
statuses_from_proto ((k64, status) ∷ m) = do
  accessory ← unwrap (Proto.AccessoryStatus.accessory status)
  info ← info_from_proto accessory
  rest ← statuses_from_proto m
  done ((key_from_proto k64, (info, Proto.AccessoryStatus.connected status)) ∷ rest)

pub map_from_proto : Map ℕ Proto.AccessoryStatus → Outcome AccessoryMap
unfolding insert_all statuses_from_proto
map_from_proto m = do entries ← statuses_from_proto m; done (insert_all [] entries)

info_entry_to_proto : Bytes × AccessoryInfo → ℕ × Proto.AccessoryInfo
unfolding key_to_proto info_to_proto
info_entry_to_proto (k6, info) = (key_to_proto k6, info_to_proto info)

pub info_map_to_proto : AccessoryInfoMap → Map ℕ Proto.AccessoryInfo
unfolding insert_all info_entry_to_proto
info_map_to_proto m = insert_all [] (map info_entry_to_proto m)

infos_from_proto : Map ℕ Proto.AccessoryInfo → Outcome (List (Bytes × AccessoryInfo))
unfolding key_from_proto info_from_proto
infos_from_proto [] = done []
infos_from_proto ((k64, accessory) ∷ m) = do
  info ← info_from_proto accessory
  rest ← infos_from_proto m
  done ((key_from_proto k64, info) ∷ rest)

pub info_map_from_proto : Map ℕ Proto.AccessoryInfo → Outcome AccessoryInfoMap
unfolding insert_all infos_from_proto
info_map_from_proto m = do entries ← infos_from_proto m; done (insert_all [] entries)
