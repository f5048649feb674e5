-- ===== src/Server/ShotDelays/Persisted/Tests.antt =====
-- The theorems at the disk with one file of delays.
use odyssey_desktop.Prelude.{
  ℕ, ◌≡◌, refl, [], ◌∷◌, bytes_inst, arith, done, ◌>>=◌, slice, strip_0x, u8_from_hex,
}
use odyssey_desktop.Common.HexKeyMap.{deserialize}
use odyssey_desktop.Common.Config.{load_map, success, into_value}
use odyssey_desktop.Common.Config.Tests.{disk, tagged, uuid, other, disk_of}
use odyssey_desktop.Interface.Devices.{six_bytes}
use odyssey_desktop.Server.ShotDelays.{ShotDelays, get_shot_delay}
use odyssey_desktop.Server.ShotDelays.Persisted.{
  save_shot_delay, read_shot_delay, start_shot_delays, start_with,
}
use odyssey_desktop.Server.ShotDelays.Persisted.Restart.{saved_delay_restarted}

-- The live delay 30 is not in the file yet.
abbrev live : ShotDelays ℕ
live = record { device_shot_delays = (uuid, 30) ∷ []; shot_delay_watch = [] }

saved_delay_restarted_example :
    (start_shot_delays {W = ℕ} disk tagged (disk_of ((other, 7) ∷ (uuid, 30) ∷ [])) >>= λ t.
    read_shot_delay disk tagged (disk_of ((other, 7) ∷ (uuid, 30) ∷ [])) t uuid)
    ≡ done 30
unfolding save_shot_delay load_map deserialize strip_0x u8_from_hex slice disk disk_of six_bytes
    get_shot_delay start_with into_value
saved_delay_restarted_example =
    saved_delay_restarted disk tagged (disk_of ((other, 7) ∷ []))
      (disk_of ((other, 7) ∷ (uuid, 30) ∷ [])) live uuid uuid (success ((other, 7) ∷ []))
      (omega arith, (omega arith, (omega arith, (omega arith, (omega arith, (omega arith, tt))))))
      refl refl
