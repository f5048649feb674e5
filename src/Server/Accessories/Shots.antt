-- ===== src/Server/Accessories/Shots.antt =====
-- A shot of an accessory is an impact of the device that it is assigned to.
use odyssey_desktop.Prelude.{◌≡◌, true, none, some, List, arith, Bytes, bytes_inst, if◌then◌else◌}
use mathlib.Core.Option
use odyssey_desktop.Prelude.Assoc.{lookup}
use odyssey_desktop.Common.Device.{Device}
use odyssey_desktop.Common.Accessory.{AccessoryType, AccessoryInfo, AccessoryInfoMap}
use odyssey_desktop.Interface.Accessories.{key_to_proto}
use odyssey_desktop.Interface.Accessories.RoundTrip.{IsMac, take_six_key_to_proto}
use odyssey_desktop.Server.Keyed.{find}
use odyssey_desktop.Server.Hub.{device_key}
use odyssey_desktop.Server.Accessories.{is_shot, notified}

-- A notification of an accessory that is assigned to the number of a UUID, from the characteristic of
-- its type, is an impact of the listed device of that UUID, if it is a shot and there is one.
pub notified_lem :
    {S : Type 0} (infos : AccessoryInfoMap) (dl : List (Device × S)) (id uuid : Bytes)
    (ty : AccessoryType) (value : Bytes) (info : AccessoryInfo)
    → IsMac uuid
    → lookup id infos ≡ some info
    → info.assignment ≡ some (key_to_proto uuid)
    → notified infos dl id ty true value
      ≡ (if is_shot ty value then Option.map (λ d. d.0) (find device_key uuid dl) else none)
unfolding notified
notified_lem infos dl id uuid ty value info v i a =
    ground (arith, i, a, take_six_key_to_proto uuid v)
