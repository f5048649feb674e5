-- ===== src/Common/Accessory.antt =====
-- odyssey_hub_common/src/accessory.rs: accessories and the maps of them. A `HashSet` of features is a
-- list, `NonZeroU64` a number that is meant not to be zero.
use odyssey_desktop.Prelude.{ℕ, Bool, Option, none, List, [], ◌∷◌, Bytes}
use odyssey_desktop.Prelude.Assoc.{Map}

pub data AccessoryType : Type 0 where
  dry_fire_mag mantis_x : AccessoryType

pub data AccessoryFeature : Type 0 where
  impact : AccessoryFeature

pub record AccessoryInfo : Type 0 where
  pub name : Bytes
  pub ty : AccessoryType
  pub assignment : Option ℕ
  pub features : List AccessoryFeature

abbrev default_features : AccessoryType → List AccessoryFeature
default_features dry_fire_mag = impact ∷ []
default_features mantis_x = impact ∷ []

unfoldable pub with_defaults : Bytes → AccessoryType → AccessoryInfo
with_defaults name ty = record {
  name = name;
  ty = ty;
  assignment = none;
  features = default_features ty;
}

abbrev pub AccessoryMap : Type 0
AccessoryMap = Map Bytes (AccessoryInfo × Bool)

abbrev pub AccessoryInfoMap : Type 0
AccessoryInfoMap = Map Bytes AccessoryInfo
