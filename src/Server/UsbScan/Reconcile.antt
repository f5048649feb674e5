-- ===== src/Server/UsbScan/Reconcile.antt =====
-- The end of a pass of `usb_device_manager`: what was there and is not enumerated any more. The
-- order in which a `HashMap` yields its keys is that of its association list.
use odyssey_desktop.Prelude.{
  Option, none, some, List, [], ◌∷◌, ◌++◌, Bytes, bytes_inst, if◌then◌else◌, is_some,
}
use odyssey_desktop.Prelude.Assoc.{Map, lookup, remove_key}
use odyssey_desktop.Server.Hub.{disconnect}
use odyssey_desktop.Server.DeviceTask.State.{Parts, remove_control_device}
use odyssey_desktop.Server.UsbScan.Probe.{Seen, dfu_device}
use odyssey_desktop.Server.UsbScan.Scan.{
  Manager, ScanEffect, announce, command, Outside, Pass, member, clean_up, scan_devices,
}

-- `keys().filter(|id| !present.contains(id))`
unfoldable pub missing : {V : Type 0} → List Bytes → Map Bytes V → List Bytes
unfolding member
missing present [] = []
missing present ((id, v) ∷ m) =
    let rest = missing present m in if member id present then rest else id ∷ rest

module _ {P : Parts} where
  -- What the task of a missing device is told.
  unfoldable pub removal_of : Manager P → Bytes → List (ScanEffect P)
  unfolding lookup
  removal_of m id = elim (lookup id m.direct_usb_id_to_uuid) [
    | none ↦ []
    | some u ↦
        if is_some (lookup u m.device_handles) then command u remove_control_device ∷ [] else []
  ]

  unfoldable pub unplug_direct : List Bytes → Manager P → Manager P × List (ScanEffect P)
  unfolding removal_of remove_key
  unplug_direct [] m = (m, [])
  unplug_direct (id ∷ ids) m =
      let m1 = record m { direct_usb_id_to_uuid = remove_key id m.direct_usb_id_to_uuid } in
      let (m', out) = unplug_direct ids m1 in (m', removal_of m id ++ out)

  -- What the hub is told of a missing bootloader.
  unfoldable pub disconnect_of : Manager P → Bytes → List (ScanEffect P)
  unfolding lookup dfu_device
  disconnect_of m id = elim (lookup id m.dfu_device_id_to_info) [
    | none ↦ []
    | some (u, pid) ↦ announce (disconnect (dfu_device u pid)) ∷ []
  ]

  unfoldable pub unplug_dfu : List Bytes → Manager P → Manager P × List (ScanEffect P)
  unfolding disconnect_of remove_key
  unplug_dfu [] m = (m, [])
  unplug_dfu (id ∷ ids) m =
      let m1 = record m { dfu_device_id_to_info = remove_key id m.dfu_device_id_to_info } in
      let (m', out) = unplug_dfu ids m1 in (m', disconnect_of m id ++ out)

  unfoldable pub reconcile : Pass P → Manager P × List (ScanEffect P)
  unfolding missing unplug_direct unplug_dfu
  reconcile s =
      let (m1, out1) =
        unplug_direct (missing s.present_direct_usb_ids s.manager.direct_usb_id_to_uuid)
          s.manager in
      let (m2, out2) = unplug_dfu (missing s.present_dfu_ids m1.dfu_device_id_to_info) m1 in
      (m2, s.out ++ (out1 ++ out2))

  -- A pass over what is enumerated; a failed enumeration changes nothing.
  unfoldable pub scan :
      Outside P → Option (List (Seen P)) → Manager P → Manager P × List (ScanEffect P)
  unfolding clean_up scan_devices reconcile
  scan outside none m = (m, [])
  scan outside (some devices) m =
      let (m1, out) = clean_up outside devices m in
      let s : Pass P = record {
        manager = m1;
        present_direct_usb_ids = [];
        present_dfu_ids = [];
        out = out;
      } in
      reconcile (scan_devices outside devices s)
