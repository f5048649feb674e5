-- ===== src/Server/AccessoryMap/Merge.antt =====
-- What an update of the accessory infos changes in the map.
use odyssey_desktop.Prelude.{
  ℕ, ◌≡◌, refl, Bool, Option, none, some, [], ◌∷◌, arith, Bytes, bytes_eq_iff, bytes_inst, done,
  Result, ok,
}
use odyssey_desktop.Prelude.Assoc.{Map, lookup, insert, lookup-insert}
use odyssey_desktop.Prelude.Assoc.Collect.{Distinct}
use odyssey_desktop.Common.Accessory.{AccessoryInfo, AccessoryMap, AccessoryInfoMap}
use odyssey_desktop.Interface.Proto
use odyssey_desktop.Interface.Accessories.{info_map_from_proto}
use odyssey_desktop.Server.AccessoryMap.{connected_flag, merge, Update, update_accessory_info_map}

-- The entry of `k` after an update: the new info with the flag that was there, or what was there.
abbrev pub merged : AccessoryInfoMap → AccessoryMap → Bytes → Option (AccessoryInfo × Bool)
merged fresh g k = elim (lookup k fresh) [
  | none ↦ lookup k g
  | some info ↦ some (info, connected_flag g k)
]

lookup-merge :
    (fresh : AccessoryInfoMap) (g : AccessoryMap) (k : Bytes)
    → Distinct fresh
    → lookup k (merge fresh g) ≡ merged fresh g k
unfolding merge connected_flag lookup
lookup-merge [] g k d = refl
lookup-merge ((j, info) ∷ fresh) g k d = ground (
  arith,
  d.0,
  bytes_eq_iff j k,
  lookup-merge fresh (insert j (info, connected_flag g j) g) k d.1,
  lookup-insert j k (info, connected_flag g j) g,
)

-- For infos that are converted, saved and loaded again as a map of distinct keys, each info that was
-- loaded replaces that of its key, with the connection flag that was there, and every other
-- accessory of the map stays, also one that the new infos do not have any more.
pub update_accessory_info_map_lem :
    (save : AccessoryInfoMap → Result (Unit {0}) Bytes)
    (reload : AccessoryInfoMap → Option AccessoryInfoMap) (g : AccessoryMap)
    (req : Map ℕ Proto.AccessoryInfo) (incoming fresh : AccessoryInfoMap) (k : Bytes)
    → info_map_from_proto req ≡ done incoming
    → save incoming ≡ ok tt
    → reload incoming ≡ some fresh
    → Distinct fresh
    → (u : Update) × (update_accessory_info_map save reload g req ≡ done (ok tt, u))
      × (lookup k u.accessory_map ≡ merged fresh g k)
      × (u.broadcast ≡ some u.accessory_map)
      × (u.info_sent ≡ some fresh)
unfolding update_accessory_info_map
update_accessory_info_map_lem save reload g req incoming fresh k c s r d = (
  record {
    accessory_map = merge fresh g;
    info_sent = some fresh;
    broadcast = some (merge fresh g);
  },
  ground (arith, c, s, r),
  lookup-merge fresh g k d,
  refl,
  refl,
)
