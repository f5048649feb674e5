-- ===== src/Server/AccessoryMap.antt =====
-- odyssey_hub_server/src/server.rs, the RPC `update_accessory_info_map`. What the configuration file
-- does is a parameter: the result of saving, and what is loaded again, `none` if it is corrupted.
pub mod Merge
pub mod Tests
use odyssey_desktop.Prelude.{
  ℕ, Bool, false, Option, none, some, List, [], ◌∷◌, Bytes, bytes_inst, Outcome, done, ◌>>=◌,
  Result, ok, err,
}
use odyssey_desktop.Prelude.Assoc.{Map, lookup, insert}
use odyssey_desktop.Common.Accessory.{AccessoryInfo, AccessoryMap, AccessoryInfoMap}
use odyssey_desktop.Interface.Proto
use odyssey_desktop.Interface.Accessories.{info_map_from_proto}

-- `get(&k).map(|(_, c)| *c).unwrap_or(false)`
pub connected_flag : AccessoryMap → Bytes → Bool
unfolding lookup
connected_flag g k = elim (lookup k g) [ none ↦ false | some (info, c) ↦ c ]

-- The loop over the fresh infos.
pub merge : AccessoryInfoMap → AccessoryMap → AccessoryMap
unfolding connected_flag insert
merge [] g = g
merge ((k, info) ∷ fresh) g = merge fresh (insert k (info, connected_flag g k) g)

-- What the RPC leaves: the map, the infos that the watchers are sent and the map that is broadcast.
pub record Update : Type 0 where
  pub accessory_map : AccessoryMap
  pub info_sent : Option AccessoryInfoMap
  pub broadcast : Option AccessoryMap

pub update_accessory_info_map :
    (AccessoryInfoMap → Result (Unit {0}) Bytes)
    → (AccessoryInfoMap → Option AccessoryInfoMap)
    → AccessoryMap
    → Map ℕ Proto.AccessoryInfo
    → Outcome (Result (Unit {0}) Bytes × Update)
unfolding merge
update_accessory_info_map save reload g req = info_map_from_proto req >>= λ incoming.
    elim (save incoming) [
      | err e ↦ done (err e, record { accessory_map = g; info_sent = none; broadcast = none })
      | ok u ↦
          let fresh : AccessoryInfoMap = elim (reload incoming) [ none ↦ incoming | some m ↦ m ] in
          let g' = merge fresh g in
          done (ok tt, record { accessory_map = g'; info_sent = some fresh; broadcast = some g' })
    ]
