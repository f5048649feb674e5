-- ===== src/Server/Accessories/Statuses.antt =====
-- Which statuses the manager keeps and broadcasts.
use odyssey_desktop.Prelude.{
  ◌≡◌, ◌⊎◌, refl, ◌∙◌, Bool, not, ◌&&◌, ◌||◌, false, Option, none, some, List, [], ◌∷◌, arith,
  Bytes, bytes_eq, bytes_eq_iff, bytes_inst, if◌then◌else◌, map, inl, inr, Option-cases,
}
use mathlib.Core.Option
use odyssey_desktop.Prelude.Assoc.{Map, lookup, insert, lookup-insert}
use odyssey_desktop.Common.Accessory.{AccessoryType, AccessoryInfo, AccessoryInfoMap}
use odyssey_desktop.Server.Accessories.{
  Manager, Attempt, Visit, skipped, visited, visit, or_false, contains_key, send_if_changed,
  retain_known, or_insert, add_missing, info_changed, scan_loop, scan_complete,
}

-- The broadcast map has each configured accessory with its status.
abbrev with_status : Map Bytes Bool → Bytes → AccessoryInfo → AccessoryInfo × Bool
with_status statuses id info = (info, or_false (lookup id statuses))

lookup-send_if_changed :
    (m : AccessoryInfoMap) (statuses : Map Bytes Bool) (id : Bytes)
    → lookup id (send_if_changed m statuses) ≡ Option.map (with_status statuses id) (lookup id m)
unfolding send_if_changed lookup
lookup-send_if_changed [] statuses id = refl
lookup-send_if_changed ((j, info) ∷ m) statuses id =
    ground (arith, bytes_eq_iff j id, lookup-send_if_changed m statuses id)

lookup-retain_known :
    {V : Type 0} (info_map : AccessoryInfoMap) (m : Map Bytes V) (id : Bytes)
    → lookup id (retain_known info_map m) ≡ (if contains_key info_map id then lookup id m else none)
unfolding retain_known lookup
lookup-retain_known info_map [] id = ground arith
lookup-retain_known info_map ((j, v) ∷ m) id =
    ground (arith, bytes_eq_iff j id, lookup-retain_known info_map m id)

lookup-or_insert :
    {V : Type 0} (k : Bytes) (v : V) (m : Map Bytes V) (id : Bytes)
    → lookup id (or_insert k v m)
      ≡ (elim (lookup id m) [ some w ↦ some w | none ↦ if bytes_eq k id then some v else none ])
unfolding or_insert
lookup-or_insert k v m id = ground (arith, bytes_eq_iff k id, lookup-insert k id v m)

lookup-add_missing :
    (m : AccessoryInfoMap) (statuses : Map Bytes Bool) (id : Bytes)
    → lookup id (add_missing m statuses) ≡ (elim (lookup id statuses) [
      | some b ↦ some b
      | none ↦ if contains_key m id then some false else none
    ])
unfolding add_missing lookup
lookup-add_missing [] statuses id = ground arith
lookup-add_missing ((j, info) ∷ m) statuses id = ground (
  arith,
  bytes_eq_iff j id,
  lookup-add_missing m (or_insert j false statuses) id,
  lookup-or_insert j false statuses id,
)

Visit-cases : (v : Visit) → (v ≡ skipped) ⊎ ((c : Bool) × (t : Bool) × (v ≡ visited c t))
Visit-cases skipped = inl refl
Visit-cases (visited c t) = inr (c, t, refl)

-- The set-up of a peripheral succeeds up to its notifications.
abbrev pub subscribes : Attempt → Bool
subscribes a = a.connect && a.discover_services && a.characteristic && a.subscribe

module _ {P : Type 0} where
  -- When the configuration changes, exactly the accessories of the new one are broadcast and have a
  -- status, which is the one that they had, or false for those that are new; the peripherals of the
  -- others are forgotten.
  pub info_changed_lem :
      (s : Manager P) (m : AccessoryInfoMap) (id : Bytes)
      → (lookup id (info_changed s m).1 ≡ Option.map (with_status s.last_statuses id) (lookup id m))
        × (lookup id (info_changed s m).0.last_statuses
            ≡ Option.map (λ info. or_false (lookup id s.last_statuses)) (lookup id m))
        × (lookup id (info_changed s m).0.periph_cache
            ≡ (if contains_key m id then lookup id s.periph_cache else none))
  unfolding info_changed
  info_changed_lem s m id =
      let kept : lookup id (add_missing m (retain_known m s.last_statuses))
          ≡ Option.map (λ info. or_false (lookup id s.last_statuses)) (lookup id m) =
        lookup-add_missing m (retain_known m s.last_statuses) id
        ∙ ground (arith, lookup-retain_known m s.last_statuses id) in
      (
        lookup-send_if_changed m (add_missing m (retain_known m s.last_statuses)) id
            ∙ ground (arith, kept),
        kept,
        lookup-retain_known m s.periph_cache id,
      )

  module _ (attempt : P → Attempt) where
    -- The status of an accessory that is scanned for, by what is found at its address and the status
    -- before.
    abbrev pub status_after : Option P → Option Bool → Option Bool
    status_after none old = some false
    status_after (some p) old =
        let a = attempt p in
        if not a.connected_before && subscribes a && not a.notifications
        then old
        else some (a.connected_before || a.connected_after)

    -- Whether a task is spawned for what is found.
    abbrev pub listens : Option P → Bool
    listens none = false
    listens (some p) =
        let a = attempt p in not a.connected_before && subscribes a && a.notifications

    -- Both by the visit of a peripheral.
    visit-status_after :
        (p : P) (old : Option Bool)
        → status_after (some p) old
          ≡ (elim (visit (attempt p)) [ skipped ↦ old | visited c t ↦ some c ])
    unfolding visit
    visit-status_after p old = ground arith

    visit-listens :
        (p : P)
        → listens (some p) ≡ (elim (visit (attempt p)) [ skipped ↦ false | visited c t ↦ t ])
    unfolding visit
    visit-listens p = ground arith

    scan_loop_status :
        (by_mac : Map Bytes P) (snapshot : List (Bytes × AccessoryType)) (statuses : Map Bytes Bool)
        (cache : Map Bytes P) (id : Bytes)
        → lookup id (scan_loop attempt by_mac snapshot statuses cache).0
          ≡ (elim (lookup id snapshot) [
            | none ↦ lookup id statuses
            | some ty ↦ status_after (lookup id by_mac) (lookup id statuses)
          ])
    unfolding scan_loop lookup
    scan_loop_status by_mac [] statuses cache id = refl
    scan_loop_status by_mac ((j, ty) ∷ snapshot) statuses cache id =
        elim (Option-cases (lookup j by_mac)) [
          | inl n ↦ ground (
            arith,
            n,
            bytes_eq_iff j id,
            lookup-insert j id false statuses,
            scan_loop_status by_mac snapshot (insert j false statuses) cache id,
          )
          | inr (p, n) ↦ elim (Visit-cases (visit (attempt p))) [
            | inl v ↦ ground (
              arith,
              n,
              v,
              visit-status_after p (lookup id statuses),
              bytes_eq_iff j id,
              scan_loop_status by_mac snapshot statuses (or_insert j p cache) id,
            )
            | inr (c, t, v) ↦ ground (
              arith,
              n,
              v,
              visit-status_after p (lookup id statuses),
              bytes_eq_iff j id,
              lookup-insert j id c statuses,
              scan_loop_status by_mac snapshot (insert j c statuses) (or_insert j p cache) id,
            )
          ]
        ]

    scan_loop_tasks :
        (by_mac : Map Bytes P) (snapshot : List (Bytes × AccessoryType)) (statuses : Map Bytes Bool)
        (cache : Map Bytes P) (id : Bytes)
        → lookup id (scan_loop attempt by_mac snapshot statuses cache).1.1
          ≡ (if listens (lookup id by_mac) then lookup id snapshot else none)
    unfolding scan_loop lookup
    scan_loop_tasks by_mac [] statuses cache id = ground arith
    scan_loop_tasks by_mac ((j, ty) ∷ snapshot) statuses cache id =
        elim (Option-cases (lookup j by_mac)) [
          | inl n ↦ ground (
            arith,
            n,
            bytes_eq_iff j id,
            scan_loop_tasks by_mac snapshot (insert j false statuses) cache id,
          )
          | inr (p, n) ↦ elim (Visit-cases (visit (attempt p))) [
            | inl v ↦ ground (
              arith,
              n,
              v,
              visit-listens p,
              bytes_eq_iff j id,
              scan_loop_tasks by_mac snapshot statuses (or_insert j p cache) id,
            )
            | inr (c, t, v) ↦ ground (
              arith,
              n,
              v,
              visit-listens p,
              bytes_eq_iff j id,
              scan_loop_tasks by_mac snapshot (insert j c statuses) (or_insert j p cache) id,
            )
          ]
        ]

    lookup-snapshot :
        (m : AccessoryInfoMap) (id : Bytes)
        → lookup id (map (λ x. (x.0, AccessoryInfo.ty (x.1))) m)
          ≡ Option.map (λ info. AccessoryInfo.ty info) (lookup id m)
    unfolding lookup
    lookup-snapshot [] id = refl
    lookup-snapshot ((j, info) ∷ m) id = ground (arith, lookup-snapshot m id)

    -- After a scan exactly the configured accessories are broadcast, each with its new status: not
    -- connected where no peripheral is found at its address; connected where the one found was
    -- connected already; as before where the set-up of the one found succeeded but for the
    -- notifications; else what is read of the peripheral after the set-up. A new task listens to
    -- exactly those that are configured and found, were not connected before, and whose set-up
    -- succeeds with the notifications.
    pub scan_complete_lem :
        (s : Manager P) (by_mac : Map Bytes P) (id : Bytes)
        → (lookup id (scan_complete attempt s by_mac).1.0
            ≡ Option.map
                (λ info.
                  (info, or_false (status_after (lookup id by_mac) (lookup id s.last_statuses))))
                (lookup id s.info_map))
          × (lookup id (scan_complete attempt s by_mac).1.1 ≡ (
              if listens (lookup id by_mac)
              then Option.map (λ info. AccessoryInfo.ty info) (lookup id s.info_map)
              else none))
    unfolding scan_complete
    scan_complete_lem s by_mac id =
        let snapshot = map (λ x. (x.0, AccessoryInfo.ty (x.1))) s.info_map in
        let out = scan_loop attempt by_mac snapshot s.last_statuses s.periph_cache in
        (
          lookup-send_if_changed s.info_map out.0 id
              ∙ ground (
                arith,
                scan_loop_status by_mac snapshot s.last_statuses s.periph_cache id,
                lookup-snapshot s.info_map id,
              ),
          scan_loop_tasks by_mac snapshot s.last_statuses s.periph_cache id
              ∙ ground (arith, lookup-snapshot s.info_map id),
        )
