-- ===== src/Server/UsbScan/Scan.antt =====
-- One pass of the loop of `usb_device_manager`. The handles of tasks are the senders to them;
-- whether a task has finished is told by the library, and so is the product of an id.
use odyssey_desktop.Prelude.{
  ℕ, ◌+◌, Bool, true, false, not, ◌&&◌, ◌||◌, Option, none, some, List, [], ◌∷◌, ◌++◌, Bytes,
  bytes_inst, bytes_eq, ◌==◌, if◌then◌else◌, is_some,
}
use odyssey_desktop.Prelude.Assoc.{Map, lookup, insert, remove_key}
use odyssey_desktop.Common.Events.{Event}
use odyssey_desktop.Server.Hub.{Message, connect}
use odyssey_desktop.Server.DeviceTask.State.{Parts, Command, add_control_device}
use odyssey_desktop.Server.DeviceTask.Links.{forget}
use odyssey_desktop.Server.DeviceTask.Loop.{Start}
use odyssey_desktop.Server.UsbScan.Serial.{uuid_from_usb_serial}
use odyssey_desktop.Server.UsbScan.Probe.{
  ProductId, mux, ats_vm, ats_lite, ats_pro, Probe, Seen, read_uuid_with_retry, dfu_device,
  device_of_probe, start_of_probe,
}

pub record Manager (P : Parts) : Type 0 where
  pub device_handles : Map Bytes P.Sender
  pub direct_usb_handler_uuids : List Bytes
  pub hub_managers : List Bytes
  pub direct_usb_id_to_uuid : Map Bytes Bytes
  pub dfu_device_id_to_info : Map Bytes (Bytes × ℕ)
  pub next_channel : ℕ

pub data ScanEffect (P : Parts) : Type 0 where
  announce : Message P.Sender P.DongleSender (Event P.Float P.Packet) → ScanEffect P
  command : Bytes → Command P → ScanEffect P
  spawn_task : Start P → ScanEffect P
  spawn_hub : Bytes → ScanEffect P
  abort_hub : Bytes → ScanEffect P

-- What the libraries tell during a pass.
pub record Outside (P : Parts) : Type 0 where
  pub product_of : ℕ → Option ProductId
  pub is_finished : P.Sender → Bool
  pub hub_is_finished : Bytes → Bool
  pub channel : ℕ → P.Sender

-- The state within a pass.
pub record Pass (P : Parts) : Type 0 where
  pub manager : Manager P
  pub present_direct_usb_ids : List Bytes
  pub present_dfu_ids : List Bytes
  pub out : List (ScanEffect P)

-- `contains`
unfoldable pub member : Bytes → List Bytes → Bool
member u [] = false
member u (v ∷ vs) = bytes_eq v u || member u vs

-- `HashSet::insert`
unfoldable pub include : Bytes → List Bytes → List Bytes
unfolding member
include u vs = if member u vs then vs else u ∷ vs

-- Whether a UUID is that of a value.
unfoldable pub has_uuid : Bytes → Map Bytes (Bytes × ℕ) → Bool
has_uuid u [] = false
has_uuid u ((id, (v, pid)) ∷ m) = bytes_eq v u || has_uuid u m

abbrev pub ats_vendor : ℕ
ats_vendor = 0x1915

module _ {P : Parts} (outside : Outside P) where
  unfoldable pub is_hub : Seen P → Bool
  is_hub d = (d.vendor_id == ats_vendor) && (elim (outside.product_of d.product_id) [
    | none ↦ false
    | some mux ↦ true
    | some ats_vm ↦ false
    | some ats_lite ↦ false
    | some ats_pro ↦ false
  ])

  -- `devices.iter().any(…)`
  unfoldable pub hub_present : Bytes → List (Seen P) → Bool
  unfolding is_hub
  hub_present id [] = false
  hub_present id (d ∷ ds) = is_hub d && bytes_eq d.id id || hub_present id ds

  -- The managers of dongles that are gone are aborted.
  unfoldable pub drop_hubs : List (Seen P) → List Bytes → List Bytes × List (ScanEffect P)
  unfolding hub_present
  drop_hubs devices [] = ([], [])
  drop_hubs devices (id ∷ ids) =
      let (kept, out) = drop_hubs devices ids in
      if hub_present id devices then (id ∷ kept, out) else (kept, abort_hub id ∷ out)

  -- The handles of tasks that have finished are removed, in both tables.
  unfoldable pub drop_finished : Map Bytes P.Sender → Map Bytes P.Sender
  drop_finished [] = []
  drop_finished ((u, tx) ∷ m) =
      let rest = drop_finished m in if outside.is_finished tx then rest else (u, tx) ∷ rest

  unfoldable pub forget_finished : Map Bytes P.Sender → List Bytes → List Bytes
  unfolding forget
  forget_finished [] direct = direct
  forget_finished ((u, tx) ∷ m) direct =
      let rest = forget_finished m direct in if outside.is_finished tx then forget u rest else rest

  unfoldable pub clean_up : List (Seen P) → Manager P → Manager P × List (ScanEffect P)
  unfolding drop_hubs drop_finished forget_finished
  clean_up devices m =
      let (hubs, out) = drop_hubs devices m.hub_managers in
      (
        record m {
          hub_managers = hubs;
          device_handles = drop_finished m.device_handles;
          direct_usb_handler_uuids = forget_finished m.device_handles m.direct_usb_handler_uuids;
        },
        out,
      )

  -- A dongle: its manager is spawned, unless one runs or the dongle cannot be opened.
  unfoldable pub scan_hub : Seen P → Pass P → Pass P
  unfolding member forget
  scan_hub d s =
      let m = s.manager in
      if member d.id m.hub_managers && not (outside.hub_is_finished d.id)
      then s
      else (let m' = record m { hub_managers = forget d.id m.hub_managers } in
          if d.hub_connects && d.hub_subscribes
          then record s {
            manager = record m' { hub_managers = m'.hub_managers ++ d.id ∷ [] };
            out = s.out ++ spawn_hub d.id ∷ [];
          }
          else record s { manager = m' })

  -- A device that cannot be opened: with a bootloader and a serial number it is listed so that
  -- its firmware can be written.
  unfoldable pub surface : Seen P → Pass P → Pass P
  unfolding lookup insert uuid_from_usb_serial include has_uuid dfu_device
  surface d s =
      let m = s.manager in
      let has_handler : Bool = elim (lookup d.id m.direct_usb_id_to_uuid) [
        | none ↦ false
        | some u ↦ is_some (lookup u m.device_handles)
      ] in
      if has_handler || not d.has_dfu_iface
      then s
      else elim (uuid_from_usb_serial d.serial_number) [
        | none ↦ s
        | some u ↦
            let s' = record s { present_dfu_ids = include d.id s.present_dfu_ids } in
            if is_some (lookup u m.device_handles) || has_uuid u m.dfu_device_id_to_info
            then s'
            else record s' {
              manager = record m {
                dfu_device_id_to_info = insert d.id (u, d.product_id) m.dfu_device_id_to_info;
              };
              out = s'.out ++ announce (connect (dfu_device u d.product_id) none) ∷ [];
            }
      ]

  -- A handle whose task has finished in the meantime is evicted.
  unfoldable pub evict : Bytes → Manager P → Manager P
  unfolding lookup remove_key forget
  evict u m = elim (lookup u m.device_handles) [
    | none ↦ m
    | some tx ↦
        if outside.is_finished tx
        then record m {
          device_handles = remove_key u m.device_handles;
          direct_usb_handler_uuids = forget u m.direct_usb_handler_uuids;
        }
        else m
  ]

  -- A device that was opened and gave its UUID: a task that has it already over the dongle is given
  -- the control link; one that has it over USB is left alone; else a task is spawned.
  unfoldable pub attach : Seen P → Probe P → Bytes → Pass P → Pass P
  unfolding insert evict lookup member include device_of_probe start_of_probe
  attach d p u s =
      let m0 = s.manager in
      let m =
        evict u (record m0 { direct_usb_id_to_uuid = insert d.id u m0.direct_usb_id_to_uuid }) in
      if is_some (lookup u m.device_handles)
      then (if member u m.direct_usb_handler_uuids
          then record s { manager = m }
          else record s { manager = m; out = s.out ++ command u (add_control_device p.link) ∷ [] })
      else (let tx = outside.channel m.next_channel in
          record s {
            manager = record m {
              device_handles = insert u tx m.device_handles;
              direct_usb_handler_uuids = include u m.direct_usb_handler_uuids;
              next_channel = m.next_channel + 1;
            };
            out =
                s.out
                ++ spawn_task (start_of_probe d p u)
                  ∷ announce (connect (device_of_probe d p u) (some tx))
                  ∷ [];
          })

  unfoldable pub scan_direct : Seen P → ProductId → Pass P → Pass P
  unfolding include surface attach read_uuid_with_retry
  scan_direct d product_id s =
      let s' = record s { present_direct_usb_ids = include d.id s.present_direct_usb_ids } in
      elim d.probe [
        | none ↦ surface d s'
        | some p ↦ elim (read_uuid_with_retry product_id p.uuid_answer).0 [
          | none ↦ s'
          | some u ↦ attach d p u s'
        ]
      ]

  unfoldable pub scan_product : Option ProductId → Seen P → Pass P → Pass P
  unfolding scan_hub scan_direct
  scan_product none d s = s
  scan_product (some mux) d s = scan_hub d s
  scan_product (some ats_vm) d s = scan_direct d ats_vm s
  scan_product (some ats_lite) d s = scan_direct d ats_lite s
  scan_product (some ats_pro) d s = scan_direct d ats_pro s

  unfoldable pub scan_device : Seen P → Pass P → Pass P
  unfolding scan_product
  scan_device d s =
      if d.vendor_id == ats_vendor then scan_product (outside.product_of d.product_id) d s else s

  unfoldable pub scan_devices : List (Seen P) → Pass P → Pass P
  unfolding scan_device
  scan_devices [] s = s
  scan_devices (d ∷ ds) s = scan_devices ds (scan_device d s)
