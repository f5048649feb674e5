-- ===== src/Server/UsbScan/Relisted.antt =====
-- A device that was listed with its bootloader only, and is opened normally by a later scan.
use odyssey_desktop.Prelude.{
  ℕ, ◌≡◌, refl, ap, ◌∙◌, Bool, true, false, some, List, [], ◌∷◌, ◌++◌, Bytes, bytes_inst, is_some,
}
use odyssey_desktop.Prelude.Assoc.{lookup, remove_key}
use odyssey_desktop.Server.Hub.{Hub, run}
use odyssey_desktop.Server.Hub.Refine.{IsUnique, find_device}
use odyssey_desktop.Server.Hub.History.{listed-run}
use odyssey_desktop.Server.DeviceTask.State.{Parts}
use odyssey_desktop.Server.UsbScan.Probe.{Seen}
use odyssey_desktop.Server.UsbScan.Scan.{Manager, Outside, Pass, member, clean_up, scan_devices}
use odyssey_desktop.Server.UsbScan.Opened.{unopened, scan_devices-Goes}
use odyssey_desktop.Server.UsbScan.Tasks.{Opens, scan_devices-has_task}
use odyssey_desktop.Server.UsbScan.Unplugged.{missing-member}
use odyssey_desktop.Server.UsbScan.Reconcile.{missing, unplug_direct, unplug_dfu, reconcile, scan}
use odyssey_desktop.Server.UsbScan.Announced.{
  announced, link_after, link_after-++, unplug_dfu-drops, unplug_direct_same,
}

module _ {P : Parts} where
  -- A surfaced device whose id is not surfaced in this pass is disconnected at its end.
  reconcile-drops :
      (s : Pass P) (id u : Bytes) (pid : ℕ) (b : Bool)
      → member id s.present_dfu_ids ≡ false
      → lookup id s.manager.dfu_device_id_to_info ≡ some (u, pid)
      → link_after u b (reconcile s).1 ≡ false
  unfolding reconcile
  reconcile-drops s id u pid b a l =
      let ids = missing s.present_direct_usb_ids s.manager.direct_usb_id_to_uuid in
      let (m1, out1) = unplug_direct ids s.manager in
      let l1 = ap (lookup id) (unplug_direct_same ids s.manager).1 ∙ l in
      let dfu_ids = missing s.present_dfu_ids m1.dfu_device_id_to_info in
      link_after-++ u b s.out (out1 ++ (unplug_dfu dfu_ids m1).1)
      ∙ link_after-++ u (link_after u b s.out) out1 (unplug_dfu dfu_ids m1).1
      ∙ unplug_dfu-drops dfu_ids m1 id u pid _
          (missing-member s.present_dfu_ids m1.dfu_device_id_to_info id (u, pid) a l1) l1

  unplug_dfu-handles :
      (ids : List Bytes) (m : Manager P) → (unplug_dfu ids m).0.device_handles ≡ m.device_handles
  unfolding unplug_dfu
  unplug_dfu-handles [] m = refl
  unplug_dfu-handles (id ∷ ids) m =
      unplug_dfu-handles ids
        (record m { dfu_device_id_to_info = remove_key id m.dfu_device_id_to_info })

  reconcile_same : (s : Pass P) → (reconcile s).0.device_handles ≡ s.manager.device_handles
  unfolding reconcile
  reconcile_same s =
      let ids = missing s.present_direct_usb_ids s.manager.direct_usb_id_to_uuid in
      let m1 = (unplug_direct ids s.manager).0 in
      unplug_dfu-handles (missing s.present_dfu_ids m1.dfu_device_id_to_info) m1
      ∙ (unplug_direct_same ids s.manager).0

module _ {P : Parts} (outside : Outside P) where
  -- Let `id` be surfaced with the UUID `u`, because its device could then be opened with its
  -- bootloader only. Let a pass enumerate any devices, among them one that it opens and that gives
  -- this UUID, and none with the id `id` that cannot be opened. Then there is a handle of a task for
  -- `u` after the pass, and yet the hub does not list the device when it has handled what the pass
  -- told it: the pass ends with the `Disconnect` of the bootloader.
  pub scan_unlists :
      (before after : List (Seen P)) (d : Seen P) (m : Manager P) (id u : Bytes) (pid : ℕ)
      (dummy_tx : P.Sender) (h : Hub P.Sender P.DongleSender)
      → Opens outside u d
      → unopened id (before ++ d ∷ after) ≡ false
      → lookup id m.dfu_device_id_to_info ≡ some (u, pid)
      → IsUnique h
      → (is_some (lookup u (scan outside (some (before ++ d ∷ after)) m).0.device_handles) ≡ true)
        × (is_some (
              find_device u
                (run dummy_tx h
                  (announced (scan outside (some (before ++ d ∷ after)) m).1)).0.device_list)
            ≡ false)
  unfolding scan clean_up member
  scan_unlists before after d m id u pid dummy_tx h o n l i =
      let devices = before ++ d ∷ after in
      let (m1, out) = clean_up outside devices m in
      let s0 : Pass P = record {
        manager = m1;
        present_direct_usb_ids = [];
        present_dfu_ids = [];
        out = out;
      } in
      let s = scan_devices outside devices s0 in
      let g = scan_devices-Goes outside id u devices s0 n in
      (
        ap (λ x. is_some (lookup u x)) (reconcile_same s)
            ∙ scan_devices-has_task outside id u before after d s0 o n,
        listed-run dummy_tx (announced (scan outside (some devices) m).1) h u i
            ∙ reconcile-drops s id u pid _ (g.not_surfaced refl) (g.same_info ∙ l),
      )
