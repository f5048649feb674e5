-- ===== src/Server/UsbScan/Unplugged.antt =====
-- A device that is not enumerated any more: its task is told, and it is forgotten.
use odyssey_desktop.Prelude.{
  ◌≡◌, true, false, Bool-cases, inl, inr, some, List, [], ◌∷◌, Bytes, bytes_inst, bytes_eq,
  bytes_eq_iff, arith,
}
use odyssey_desktop.Prelude.Assoc.{Map, lookup}
use odyssey_desktop.Server.UsbScan.Scan.{member}
use odyssey_desktop.Server.UsbScan.Reconcile.{missing}

pub missing-member :
    {V : Type 0} (present : List Bytes) (m : Map Bytes V) (id : Bytes) (v : V)
    → member id present ≡ false
    → lookup id m ≡ some v
    → member id (missing present m) ≡ true
unfolding member missing lookup
missing-member present [] id v h l = ground (arith, l)
missing-member present ((j, w) ∷ m) id v h l = elim (Bool-cases (bytes_eq j id)) [
  | inl e ↦ ground (arith, e, h, (bytes_eq_iff j id).0 e)
  | inr e ↦ ground (arith, e, missing-member present m id v h (ground (arith, e, l)))
]
