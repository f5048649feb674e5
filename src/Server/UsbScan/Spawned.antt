-- ===== src/Server/UsbScan/Spawned.antt =====
-- The tasks that a scan spawns are sound from their start on.
use odyssey_desktop.Prelude.{
  ◌<◌, ◌≡◌, refl, Bool, true, false, Option-cases, inl, inr, List, Bytes, arith, is_some,
}
use odyssey_desktop.Common.Device.{contains, control, events, insert}
use odyssey_desktop.Server.DeviceTask.State.{Parts, Answers, Shared}
use odyssey_desktop.Server.DeviceTask.Streams.{is_empty, restart}
use odyssey_desktop.Server.DeviceTask.Links.{Libraries}
use odyssey_desktop.Server.DeviceTask.DeviceBits.{BitsAgree}
use odyssey_desktop.Server.DeviceTask.Invariant.{Sound}
use odyssey_desktop.Server.DeviceTask.TurnSound.{loop-Sound}
use odyssey_desktop.Server.DeviceTask.Loop.{Wake, OnReport, Start, start, run_task}
use odyssey_desktop.Server.UsbScan.Probe.{
  Probe, Seen, device_of_probe, start_of_probe, probe_in_usb_mode, probe_capabilities,
}

-- The capability bits of a probed device.
record CapsAgree (in_usb_mode has_dfu : Bool) : Type 0 where
  is_byte : (probe_capabilities in_usb_mode has_dfu).bits < 256
  control_bit : contains (probe_capabilities in_usb_mode has_dfu) control ≡ true
  events_bit : contains (probe_capabilities in_usb_mode has_dfu) events ≡ in_usb_mode

caps_agree : (u h : Bool) → CapsAgree u h
unfolding probe_capabilities contains insert
caps_agree true true = record { is_byte = omega arith; control_bit = refl; events_bit = refl }
caps_agree true false = record { is_byte = omega arith; control_bit = refl; events_bit = refl }
caps_agree false true = record { is_byte = omega arith; control_bit = refl; events_bit = refl }
caps_agree false false = record { is_byte = omega arith; control_bit = refl; events_bit = refl }

module _ {P : Parts} where
  start_of_probe-BitsAgree :
      (d : Seen P) (p : Probe P) (u : Bytes)
      → let s = start_of_probe d p u in
        BitsAgree (is_some s.control_link) (is_some s.events_link) s.device_meta
  unfolding start_of_probe device_of_probe
  start_of_probe-BitsAgree d p u =
      let c = caps_agree (probe_in_usb_mode p) d.has_dfu_iface in
      record {
        is_byte = c.is_byte;
        control_bit = c.control_bit;
        events_bit = c.events_bit;
        link_connected = λ e. ground (arith, e);
        dfu_wired = λ e. refl;
      }

module _ {P : Parts} (lib : Libraries P) where
  -- A task whose links agree with its device's bits is sound when its loop starts.
  pub start-Sound :
      (a : Answers P) (sh : Shared P) (s : Start P)
      → BitsAgree (is_some s.control_link) (is_some s.events_link) s.device_meta
      → Sound (start lib a sh s).task
  unfolding start restart is_empty
  start-Sound a sh s b = elim (Option-cases s.events_link) [
    | inl n ↦ ground (arith, n, b)
    | inr (dev, n) ↦ ground (arith, n, b)
  ]

module _ {P : Parts} (lib : Libraries P) (on_report : OnReport P) where
  -- A task that a scan spawns for a device it has opened, whatever the device told of itself, is
  -- sound from its start on, after whatever wakes it up, if it has not ended: its capability bits
  -- show its links, its streams run only on a link, and a pause of them has its timer set.
  pub run_task-Sound :
      (d : Seen P) (p : Probe P) (u : Bytes) (a : Answers P) (sh : Shared P)
      (ws : List (Answers P × Wake P))
      → (run_task lib on_report a sh (start_of_probe d p u) ws).ended ≡ false
      → Sound (run_task lib on_report a sh (start_of_probe d p u) ws).task
  unfolding run_task
  run_task-Sound d p u a sh ws n =
      let r = start lib a sh (start_of_probe d p u) in
      loop-Sound lib on_report r.shared r.task ws
        (start-Sound lib a sh (start_of_probe d p u) (start_of_probe-BitsAgree d p u)) n
