-- ===== src/Server/UsbScan/Tasks.antt =====
-- A device that is opened in a pass, after and before any others, has a task at its end.
use odyssey_desktop.Prelude.{
  ◌≡◌, Bool, true, false, some, List, [], ◌∷◌, ◌++◌, Bytes, bytes_inst, arith, ◌==◌,
}
use odyssey_desktop.Server.DeviceTask.State.{Parts}
use odyssey_desktop.Server.UsbScan.Probe.{
  Probe, ProductId, mux, ats_vm, ats_lite, ats_pro, Seen, read_uuid_with_retry,
}
use odyssey_desktop.Server.UsbScan.Scan.{
  Outside, Pass, scan_direct, scan_product, ats_vendor, scan_device, scan_devices,
}
use odyssey_desktop.Server.UsbScan.Opened.{unopened, has_task, attach-has_task, scan_devices-Goes}

module _ {P : Parts} (outside : Outside P) where
  -- A direct product, that is, no dongle.
  abbrev pub is_direct : ProductId → Bool
  is_direct mux = false
  is_direct ats_vm = true
  is_direct ats_lite = true
  is_direct ats_pro = true

  -- A device that is opened and gives the UUID `u`.
  pub record Opens (u : Bytes) (d : Seen P) : Type 0 where
    pub product : ProductId
    pub probe : Probe P
    pub ats : (d.vendor_id == ats_vendor) ≡ true
    pub known : outside.product_of d.product_id ≡ some product
    pub direct : is_direct product ≡ true
    pub opened : d.probe ≡ some probe
    pub answers : (read_uuid_with_retry product probe.uuid_answer).0 ≡ some u

  scan_direct-has_task :
      (u : Bytes) (d : Seen P) (q : ProductId) (p : Probe P) (s : Pass P)
      → d.probe ≡ some p
      → (read_uuid_with_retry q p.uuid_answer).0 ≡ some u
      → has_task u (scan_direct outside d q s) ≡ true
  unfolding scan_direct
  scan_direct-has_task u d q p s n r =
      rw (n, scan_direct) (rw (r, scan_direct) (attach-has_task outside d p u _))

  scan_product-has_task :
      (u : Bytes) (d : Seen P) (q : ProductId) (p : Probe P) (s : Pass P)
      → is_direct q ≡ true
      → d.probe ≡ some p
      → (read_uuid_with_retry q p.uuid_answer).0 ≡ some u
      → has_task u (scan_product outside (some q) d s) ≡ true
  unfolding scan_product
  scan_product-has_task u d mux p s i n r = absurd (cc)
  scan_product-has_task u d ats_vm p s i n r = scan_direct-has_task u d ats_vm p s n r
  scan_product-has_task u d ats_lite p s i n r = scan_direct-has_task u d ats_lite p s n r
  scan_product-has_task u d ats_pro p s i n r = scan_direct-has_task u d ats_pro p s n r

  -- A device that is opened, after and before any others, has a task at the end of the pass.
  pub scan_devices-has_task :
      (id u : Bytes) (before after : List (Seen P)) (d : Seen P) (s : Pass P)
      → Opens u d
      → unopened id (before ++ d ∷ after) ≡ false
      → has_task u (scan_devices outside (before ++ d ∷ after) s) ≡ true
  unfolding scan_devices scan_device
  scan_devices-has_task id u [] after d s o h =
      (scan_devices-Goes outside id u after (scan_device outside d s)
          (ground (arith, h))).keeps_task
        (rw (o.ats, scan_device)
          (rw (o.known, scan_product)
            (scan_product-has_task u d o.product o.probe s o.direct o.opened o.answers)))
  scan_devices-has_task id u (e ∷ before) after d s o h =
      scan_devices-has_task id u before after d (scan_device outside e s) o (ground (arith, h))
