-- ===== src/Server/Accessories.antt =====
-- odyssey_hub_server/src/accessories.rs: the connection state of the configured accessories. What a
-- scan finds and does with the Bluetooth library is the list of its results.
pub mod Statuses
pub mod Shots
pub mod Tests
use odyssey_desktop.Prelude.{
  Bool, true, false, Option, none, some, List, [], ◌∷◌, Bytes, bytes_inst, ◌==◌, ◌&&◌,
  if◌then◌else◌, length, map, take,
}
use odyssey_desktop.Prelude.Assoc.{Map, lookup, insert}
use odyssey_desktop.Common.Accessory.{AccessoryType, AccessoryInfo, AccessoryMap, AccessoryInfoMap}
use odyssey_desktop.Prelude.Maybe.{◌>>=◌}
use odyssey_desktop.Common.Device.{Device}
use odyssey_desktop.Server.Keyed.{find}
use odyssey_desktop.Server.Hub.{device_key}
use odyssey_desktop.Interface.Accessories.{to_le_bytes}

-- `P` stands for the Bluetooth library's peripherals.
pub record Manager (P : Type 0) : Type 0 where
  pub info_map : AccessoryInfoMap
  pub last_statuses : Map Bytes Bool
  pub periph_cache : Map Bytes P

-- `unwrap_or(&false)`
abbrev pub or_false : Option Bool → Bool
or_false none = false
or_false (some b) = b

-- `contains_key`
abbrev pub contains_key {ℓ} : {V : Type ℓ} → Map Bytes V → Bytes → Bool
contains_key m k = elim (lookup k m) [ none ↦ false | some v ↦ true ]

-- The map that `send_if_changed` sends, always.
pub send_if_changed : AccessoryInfoMap → Map Bytes Bool → AccessoryMap
unfolding lookup
send_if_changed [] statuses = []
send_if_changed ((id, info) ∷ info_map) statuses =
    (id, (info, or_false (lookup id statuses))) ∷ send_if_changed info_map statuses

-- `retain`
pub retain_known {ℓ} : {V : Type ℓ} → AccessoryInfoMap → Map Bytes V → Map Bytes V
unfolding lookup
retain_known info_map [] = []
retain_known info_map ((id, v) ∷ m) =
    let rest = retain_known info_map m in if contains_key info_map id then (id, v) ∷ rest else rest

-- `entry(id).or_insert(v)`
pub or_insert {ℓ} : {V : Type ℓ} → Bytes → V → Map Bytes V → Map Bytes V
unfolding lookup insert
or_insert id v m = if contains_key m id then m else insert id v m

-- The loop over the keys of the map.
pub add_missing : AccessoryInfoMap → Map Bytes Bool → Map Bytes Bool
unfolding or_insert
add_missing [] statuses = statuses
add_missing ((id, info) ∷ info_map) statuses = add_missing info_map (or_insert id false statuses)

module _ {P : Type 0} where
  pub start : AccessoryInfoMap → Manager P × AccessoryMap
  unfolding send_if_changed
  start info_map =
      let last_statuses = map (λ x. (x.0, false)) info_map in
      (
        record { info_map = info_map; last_statuses = last_statuses; periph_cache = [] },
        send_if_changed info_map last_statuses,
      )

  -- `AccessoryEvent::InfoChanged`, with the map that is there now.
  pub info_changed : Manager P → AccessoryInfoMap → Manager P × AccessoryMap
  unfolding retain_known add_missing send_if_changed
  info_changed s info_map =
      let last_statuses = add_missing info_map (retain_known info_map s.last_statuses) in
      (
        record {
          info_map = info_map;
          last_statuses = last_statuses;
          periph_cache = retain_known info_map s.periph_cache;
        },
        send_if_changed info_map last_statuses,
      )

-- What the calls of the Bluetooth library for one peripheral give: whether it is connected before
-- and after, and whether each step of the set-up succeeds (`characteristic` is whether the one of the
-- accessory's type is found).
pub record Attempt : Type 0 where
  pub connected_before : Bool
  pub connect : Bool
  pub discover_services : Bool
  pub characteristic : Bool
  pub subscribe : Bool
  pub notifications : Bool
  pub connected_after : Bool

-- Whether the loop goes on to the next accessory without a status, the status, and whether a
-- task is spawned for the notifications.
pub data Visit : Type 0 where
  skipped : Visit
  visited : Bool → Bool → Visit

-- The part of the loop for a peripheral that is there.
pub visit : Attempt → Visit
visit a =
    if a.connected_before
    then visited true false
    else if a.connect && a.discover_services && a.characteristic && a.subscribe
    then if a.notifications then visited a.connected_after true else skipped
    else visited a.connected_after false

module _ {P : Type 0} (attempt : P → Attempt) where
  -- The loop over the snapshot, with the peripherals of the scan by their addresses: the statuses,
  -- the cache and the accessories whose notifications a new task listens to.
  pub scan_loop :
      Map Bytes P
      → List (Bytes × AccessoryType)
      → Map Bytes Bool
      → Map Bytes P
      → Map Bytes Bool × (Map Bytes P × List (Bytes × AccessoryType))
  unfolding visit or_insert insert lookup
  scan_loop by_mac [] statuses cache = (statuses, (cache, []))
  scan_loop by_mac ((id, ty) ∷ snapshot) statuses cache = elim (lookup id by_mac) [
    | none ↦ scan_loop by_mac snapshot (insert id false statuses) cache
    | some p ↦ elim (visit (attempt p)) [
      | skipped ↦ scan_loop by_mac snapshot statuses (or_insert id p cache)
      | visited connected spawned ↦
          let (s, (c, tasks)) =
            scan_loop by_mac snapshot (insert id connected statuses) (or_insert id p cache) in
          (s, (c, if spawned then (id, ty) ∷ tasks else tasks))
    ]
  ]

  -- `AccessoryEvent::ScanComplete`, with the peripherals that were found.
  pub scan_complete :
      Manager P → Map Bytes P → Manager P × (AccessoryMap × List (Bytes × AccessoryType))
  unfolding scan_loop send_if_changed
  scan_complete s by_mac =
      let snapshot = map (λ x. (x.0, AccessoryInfo.ty (x.1))) s.info_map in
      let (statuses, (cache, tasks)) = scan_loop by_mac snapshot s.last_statuses s.periph_cache in
      (
        record s { last_statuses = statuses; periph_cache = cache },
        (send_if_changed s.info_map statuses, tasks),
      )

-- Whether a notification of the subscribed characteristic is a shot.
pub is_shot : AccessoryType → Bytes → Bool
is_shot AccessoryType.dry_fire_mag value = true
is_shot AccessoryType.mantis_x [] = false
is_shot AccessoryType.mantis_x (b ∷ bs) = (length (b ∷ bs) == 1) && (b == 0x01)

-- A notification of an accessory: the device that an impact event is sent for, if one is. `matches`
-- is whether it comes from the characteristic of the accessory's type.
pub notified :
    {S : Type 0}
    → AccessoryInfoMap
    → List (Device × S)
    → Bytes
    → AccessoryType
    → Bool
    → Bytes
    → Option Device
unfolding is_shot lookup find
notified info_map dl id ty matches value =
    if matches && is_shot ty value
    then (do
      i ← lookup id info_map
      assignment ← AccessoryInfo.assignment i
      d ← find device_key (take 6 (to_le_bytes 8 assignment)) dl
      some d.0)
    else none
