-- ===== src/Server/UsbScan/Keeps.antt =====
-- What a pass over other devices keeps of a device, and the removals that it tells.
use odyssey_desktop.Prelude.{
  ◌≡◌, refl, ap, ◌∙◌, Bool, true, false, ◌&&◌, ◌||◌, Bool-cases, Option-cases, inl, inr, Option,
  none, some, List, [], ◌∷◌, ◌++◌, Bytes, bytes_inst, bytes_eq, arith, ◌==◌,
}
use odyssey_desktop.Prelude.Assoc.{lookup, insert, lookup-insert}
use odyssey_desktop.Server.DeviceTask.State.{Parts, Command, remove_control_device}
use odyssey_desktop.Server.UsbScan.Probe.{
  Probe, ProductId, mux, ats_vm, ats_lite, ats_pro, Seen, read_uuid_with_retry,
}
use odyssey_desktop.Server.UsbScan.Scan.{
  Manager, ScanEffect, announce, command, spawn_task, spawn_hub, abort_hub, Outside, Pass, member,
  include, scan_hub, surface, evict, attach, scan_direct, scan_product, ats_vendor, scan_device,
  scan_devices,
}

module _ {P : Parts} where
  -- Whether an id is among the enumerated devices.
  abbrev pub enumerated : Bytes → List (Seen P) → Bool
  enumerated id [] = false
  enumerated id (d ∷ ds) = bytes_eq d.id id || enumerated id ds

  abbrev is_removal : Command P → Bool
  is_removal remove_control_device = true
  is_removal _ = false

  -- Whether the task of `u` is told to remove its control link.
  unfoldable pub told_removal : Bytes → List (ScanEffect P) → Bool
  told_removal u [] = false
  told_removal u (command v c ∷ es) = (bytes_eq v u && is_removal c) || told_removal u es
  told_removal u (announce m ∷ es) = told_removal u es
  told_removal u (spawn_task s ∷ es) = told_removal u es
  told_removal u (spawn_hub i ∷ es) = told_removal u es
  told_removal u (abort_hub i ∷ es) = told_removal u es

  pub told_removal-++ :
      (u : Bytes) (a b : List (ScanEffect P))
      → told_removal u (a ++ b) ≡ (told_removal u a || told_removal u b)
  unfolding told_removal
  told_removal-++ u [] b = refl
  told_removal-++ u (command v c ∷ es) b = ground (arith, told_removal-++ u es b)
  told_removal-++ u (announce m ∷ es) b = told_removal-++ u es b
  told_removal-++ u (spawn_task s ∷ es) b = told_removal-++ u es b
  told_removal-++ u (spawn_hub i ∷ es) b = told_removal-++ u es b
  told_removal-++ u (abort_hub i ∷ es) b = told_removal-++ u es b

  -- What a step of the pass does to an id that is not that of its device.
  pub record Kept (id : Bytes) (s s' : Pass P) : Type 0 where
    pub same_uuid :
        lookup id s'.manager.direct_usb_id_to_uuid ≡ lookup id s.manager.direct_usb_id_to_uuid
    pub still_absent :
        member id s.present_direct_usb_ids ≡ false → member id s'.present_direct_usb_ids ≡ false

member-include :
    (u v : Bytes) (l : List Bytes)
    → bytes_eq u v ≡ false
    → member v l ≡ false
    → member v (include u l) ≡ false
unfolding member include
member-include u v l e h = ground (arith, e, h)

module _ {P : Parts} (outside : Outside P) where
  surface_same :
      (d : Seen P) (s : Pass P)
      → ((surface outside d s).manager.direct_usb_id_to_uuid ≡ s.manager.direct_usb_id_to_uuid)
        × ((surface outside d s).present_direct_usb_ids ≡ s.present_direct_usb_ids)
  unfolding surface
  surface_same d s = (ground arith, ground arith)

  scan_hub_same :
      (d : Seen P) (s : Pass P)
      → ((scan_hub outside d s).manager.direct_usb_id_to_uuid ≡ s.manager.direct_usb_id_to_uuid)
        × ((scan_hub outside d s).present_direct_usb_ids ≡ s.present_direct_usb_ids)
  unfolding scan_hub
  scan_hub_same d s = (ground arith, ground arith)

  evict_same :
      (u : Bytes) (m : Manager P)
      → (evict outside u m).direct_usb_id_to_uuid ≡ m.direct_usb_id_to_uuid
  unfolding evict
  evict_same u m = ground arith

  attach_same :
      (d : Seen P) (p : Probe P) (u : Bytes) (s : Pass P)
      → ((attach outside d p u s).manager.direct_usb_id_to_uuid
          ≡ insert d.id u s.manager.direct_usb_id_to_uuid)
        × ((attach outside d p u s).present_direct_usb_ids ≡ s.present_direct_usb_ids)
  unfolding attach
  attach_same d p u s =
      let e = evict_same u (record (s.manager) {
        direct_usb_id_to_uuid = insert d.id u s.manager.direct_usb_id_to_uuid;
      }) in
      (ground (arith, e), ground arith)

  scan_direct-Kept :
      (id : Bytes) (d : Seen P) (q : ProductId) (s : Pass P)
      → bytes_eq d.id id ≡ false
      → Kept id s (scan_direct outside d q s)
  unfolding scan_direct
  scan_direct-Kept id d q s h =
      let s' : Pass P = record s {
        present_direct_usb_ids = include d.id s.present_direct_usb_ids;
      } in
      let k = member-include d.id id s.present_direct_usb_ids h in
      elim (Option-cases d.probe) [
        | inl n ↦ record {
          same_uuid = ground (arith, n, surface_same d s');
          still_absent = λ a. ground (arith, n, surface_same d s', k a);
        }
        | inr (p, n) ↦ elim (Option-cases (read_uuid_with_retry q p.uuid_answer).0) [
          | inl r ↦ record {
            same_uuid = ground (arith, n, r);
            still_absent = λ a. ground (arith, n, r, k a);
          }
          | inr (u, r) ↦ record {
            same_uuid = ground (
              arith,
              n,
              r,
              h,
              attach_same d p u s',
              lookup-insert d.id id u s.manager.direct_usb_id_to_uuid,
            );
            still_absent = λ a. ground (arith, n, r, attach_same d p u s', k a);
          }
        ]
      ]

  unchanged : (id : Bytes) (s : Pass P) → Kept id s s
  unchanged id s = record { same_uuid = refl; still_absent = λ a. a }

  scan_product-Kept :
      (o : Option ProductId) (id : Bytes) (d : Seen P) (s : Pass P)
      → bytes_eq d.id id ≡ false
      → Kept id s (scan_product outside o d s)
  unfolding scan_product
  scan_product-Kept none id d s h = unchanged id s
  scan_product-Kept (some mux) id d s h = record {
    same_uuid = ap (lookup id) (scan_hub_same d s).0;
    still_absent = λ a. ap (member id) (scan_hub_same d s).1 ∙ a;
  }
  scan_product-Kept (some ats_vm) id d s h = scan_direct-Kept id d ats_vm s h
  scan_product-Kept (some ats_lite) id d s h = scan_direct-Kept id d ats_lite s h
  scan_product-Kept (some ats_pro) id d s h = scan_direct-Kept id d ats_pro s h

  scan_device-Kept :
      (id : Bytes) (d : Seen P) (s : Pass P)
      → bytes_eq d.id id ≡ false
      → Kept id s (scan_device outside d s)
  unfolding scan_device
  scan_device-Kept id d s h = elim (Bool-cases (d.vendor_id == ats_vendor)) [
    | inl v ↦ rw (v, scan_device) (scan_product-Kept (outside.product_of d.product_id) id d s h)
    | inr v ↦ rw (v, scan_device) (unchanged id s)
  ]

  pub scan_devices-Kept :
      (id : Bytes) (ds : List (Seen P)) (s : Pass P)
      → enumerated id ds ≡ false
      → Kept id s (scan_devices outside ds s)
  unfolding scan_devices
  scan_devices-Kept id [] s h = unchanged id s
  scan_devices-Kept id (d ∷ ds) s h =
      let k = scan_device-Kept id d s (ground (arith, h)) in
      let l = scan_devices-Kept id ds (scan_device outside d s) (ground (arith, h)) in
      record {
        same_uuid = l.same_uuid ∙ k.same_uuid;
        still_absent = λ a. l.still_absent (k.still_absent a);
      }
