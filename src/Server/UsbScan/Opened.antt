-- ===== src/Server/UsbScan/Opened.antt =====
-- What a pass keeps of the task of a UUID, and of what was surfaced under an id that it does not
-- surface.
use odyssey_desktop.Prelude.{
  ◌≡◌, refl, ap, ◌∙◌, Bool, true, false, not, ◌&&◌, ◌||◌, Bool-cases, Option-cases, inl, inr,
  Option, none, some, List, [], ◌∷◌, Bytes, bytes_inst, bytes_eq, bytes_eq_iff, arith, is_some,
  ◌==◌,
}
use odyssey_desktop.Prelude.Assoc.{lookup, insert, lookup-insert, lookup-remove_key}
use odyssey_desktop.Server.DeviceTask.State.{Parts}
use odyssey_desktop.Server.UsbScan.Serial.{uuid_from_usb_serial}
use odyssey_desktop.Server.UsbScan.Probe.{
  Probe, ProductId, mux, ats_vm, ats_lite, ats_pro, Seen, read_uuid_with_retry,
}
use odyssey_desktop.Server.UsbScan.Scan.{
  Manager, Outside, Pass, member, include, scan_hub, surface, evict, attach, scan_direct,
  scan_product, ats_vendor, scan_device, scan_devices,
}

module _ {P : Parts} where
  -- Whether a device with this id is enumerated that cannot be opened.
  abbrev pub unopened : Bytes → List (Seen P) → Bool
  unopened id [] = false
  unopened id (d ∷ ds) = (bytes_eq d.id id && not (is_some d.probe)) || unopened id ds

  abbrev pub has_task : Bytes → Pass P → Bool
  has_task u s = is_some (lookup u s.manager.device_handles)

  -- What the rest of a pass keeps of the task of `u`, and of what is surfaced under `id`.
  pub record Goes (id u : Bytes) (s s' : Pass P) : Type 0 where
    pub same_info :
        lookup id s'.manager.dfu_device_id_to_info ≡ lookup id s.manager.dfu_device_id_to_info
    pub not_surfaced : member id s.present_dfu_ids ≡ false → member id s'.present_dfu_ids ≡ false
    pub keeps_task : has_task u s ≡ true → has_task u s' ≡ true

  unchanged : (id u : Bytes) (s : Pass P) → Goes id u s s
  unchanged id u s = record { same_info = refl; not_surfaced = λ a. a; keeps_task = λ a. a }

module _ {P : Parts} (outside : Outside P) where
  surface-Goes :
      (id u : Bytes) (d : Seen P) (s : Pass P)
      → bytes_eq d.id id ≡ false
      → Goes id u s (surface outside d s)
  unfolding surface member include
  surface-Goes id u d s h = record {
    same_info = elim (Option-cases (uuid_from_usb_serial d.serial_number)) [
      | inl n ↦ ground (arith, n)
      | inr (v, n) ↦
          ground
            (arith, n, h, lookup-insert d.id id (v, d.product_id) s.manager.dfu_device_id_to_info)
    ];
    not_surfaced = λ a. ground (arith, h, a);
    keeps_task = λ a. ground (arith, a);
  }

  evict-keeps :
      (u v : Bytes) (m : Manager P)
      → bytes_eq v u ≡ false
      → lookup u (evict outside v m).device_handles ≡ lookup u m.device_handles
  unfolding evict
  evict-keeps u v m h = ground (arith, h, lookup-remove_key v u m.device_handles)

  evict_same :
      (v : Bytes) (m : Manager P)
      → (evict outside v m).dfu_device_id_to_info ≡ m.dfu_device_id_to_info
  unfolding evict
  evict_same v m = ground arith

  attach-handles :
      (u : Bytes) (d : Seen P) (p : Probe P) (v : Bytes) (s : Pass P)
      → let m = evict outside v (record (s.manager) {
        direct_usb_id_to_uuid = insert d.id v s.manager.direct_usb_id_to_uuid;
      }) in
        has_task u (attach outside d p v s) ≡ (bytes_eq v u || is_some (lookup u m.device_handles))
  unfolding attach
  attach-handles u d p v s =
      let m = evict outside v (record (s.manager) {
        direct_usb_id_to_uuid = insert d.id v s.manager.direct_usb_id_to_uuid;
      }) in
      ground (
        arith,
        lookup-insert v u (outside.channel m.next_channel) m.device_handles,
        bytes_eq_iff v u,
      )

  -- The device that is attached has a task.
  pub attach-has_task :
      (d : Seen P) (p : Probe P) (u : Bytes) (s : Pass P)
      → has_task u (attach outside d p u s) ≡ true
  attach-has_task d p u s = attach-handles u d p u s ∙ ground (arith, (bytes_eq_iff u u).1 refl)

  attach_same :
      (d : Seen P) (p : Probe P) (v : Bytes) (s : Pass P)
      → ((attach outside d p v s).manager.dfu_device_id_to_info ≡ s.manager.dfu_device_id_to_info)
        × ((attach outside d p v s).present_dfu_ids ≡ s.present_dfu_ids)
  unfolding attach
  attach_same d p v s =
      let e = evict_same v (record (s.manager) {
        direct_usb_id_to_uuid = insert d.id v s.manager.direct_usb_id_to_uuid;
      }) in
      (ground (arith, e), ground arith)

  pub attach-Goes :
      (id u : Bytes) (d : Seen P) (p : Probe P) (v : Bytes) (s : Pass P)
      → Goes id u s (attach outside d p v s)
  attach-Goes id u d p v s =
      let m0 : Manager P = record (s.manager) {
        direct_usb_id_to_uuid = insert d.id v s.manager.direct_usb_id_to_uuid;
      } in
      let same = attach_same d p v s in
      record {
        same_info = ap (lookup id) same.0;
        not_surfaced = λ a. ap (member id) same.1 ∙ a;
        keeps_task = λ a. attach-handles u d p v s ∙ (elim (Bool-cases (bytes_eq v u)) [
          | inl e ↦ ground (arith, e)
          | inr e ↦ ground (arith, e, a, evict-keeps u v m0 e)
        ]);
      }

  scan_direct-Goes :
      (id u : Bytes) (d : Seen P) (q : ProductId) (s : Pass P)
      → (bytes_eq d.id id && not (is_some d.probe)) ≡ false
      → Goes id u s (scan_direct outside d q s)
  unfolding scan_direct
  scan_direct-Goes id u d q s h =
      let s' : Pass P = record s {
        present_direct_usb_ids = include d.id s.present_direct_usb_ids;
      } in
      elim (Option-cases d.probe) [
        | inl n ↦
            let g = surface-Goes id u d s' (ground (arith, h, n)) in
            rw (n, scan_direct)
              (record {
                same_info = g.same_info;
                not_surfaced = g.not_surfaced;
                keeps_task = g.keeps_task;
              })
        | inr (p, n) ↦ elim (Option-cases (read_uuid_with_retry q p.uuid_answer).0) [
          | inl r ↦
              rw (n, scan_direct)
                (rw (r, scan_direct)
                  (record { same_info = refl; not_surfaced = λ a. a; keeps_task = λ a. a }))
          | inr (v, r) ↦
              let g = attach-Goes id u d p v s' in
              rw (n, scan_direct)
                (rw (r, scan_direct)
                  (record {
                    same_info = g.same_info;
                    not_surfaced = g.not_surfaced;
                    keeps_task = g.keeps_task;
                  }))
        ]
      ]

  scan_hub-Goes : (id u : Bytes) (d : Seen P) (s : Pass P) → Goes id u s (scan_hub outside d s)
  unfolding scan_hub
  scan_hub-Goes id u d s = record {
    same_info = ground arith;
    not_surfaced = λ a. ground (arith, a);
    keeps_task = λ a. ground (arith, a);
  }

  scan_product-Goes :
      (o : Option ProductId) (id u : Bytes) (d : Seen P) (s : Pass P)
      → (bytes_eq d.id id && not (is_some d.probe)) ≡ false
      → Goes id u s (scan_product outside o d s)
  unfolding scan_product
  scan_product-Goes none id u d s h = unchanged id u s
  scan_product-Goes (some mux) id u d s h = scan_hub-Goes id u d s
  scan_product-Goes (some ats_vm) id u d s h = scan_direct-Goes id u d ats_vm s h
  scan_product-Goes (some ats_lite) id u d s h = scan_direct-Goes id u d ats_lite s h
  scan_product-Goes (some ats_pro) id u d s h = scan_direct-Goes id u d ats_pro s h

  scan_device-Goes :
      (id u : Bytes) (d : Seen P) (s : Pass P)
      → (bytes_eq d.id id && not (is_some d.probe)) ≡ false
      → Goes id u s (scan_device outside d s)
  unfolding scan_device
  scan_device-Goes id u d s h = elim (Bool-cases (d.vendor_id == ats_vendor)) [
    | inl v ↦ rw (v, scan_device) (scan_product-Goes (outside.product_of d.product_id) id u d s h)
    | inr v ↦ rw (v, scan_device) (unchanged id u s)
  ]

  pub scan_devices-Goes :
      (id u : Bytes) (ds : List (Seen P)) (s : Pass P)
      → unopened id ds ≡ false
      → Goes id u s (scan_devices outside ds s)
  unfolding scan_devices
  scan_devices-Goes id u [] s h = unchanged id u s
  scan_devices-Goes id u (d ∷ ds) s h =
      let g = scan_device-Goes id u d s (ground (arith, h)) in
      let k = scan_devices-Goes id u ds (scan_device outside d s) (ground (arith, h)) in
      record {
        same_info = k.same_info ∙ g.same_info;
        not_surfaced = λ a. k.not_surfaced (g.not_surfaced a);
        keeps_task = λ a. k.keeps_task (g.keeps_task a);
      }
