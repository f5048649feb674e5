-- ===== src/Server/DeviceTask/DeviceBits.antt =====
-- The capability bits of a device and the links of its task, as links come and go.
use odyssey_desktop.Prelude.{◌<◌, ◌≡◌, refl, inl, inr, Bool, true, false, arith}
use odyssey_desktop.Common.Device.{
  Device, DeviceCapabilities, contains, control, events, dfu, Version, insert, remove,
}
use odyssey_desktop.Common.Device.Capabilities.{contains-insert-remove, insert-remove-bound}
use odyssey_desktop.Server.DeviceTask.State.{Reply, answered, failed, timed_out, TransportMode}
use odyssey_desktop.Server.DeviceTask.Links.{apply_mode, apply_version}

-- The bits of a device whose task has a control link, an events link, or not.
pub record BitsAgree (has_control has_events : Bool) (d : Device) : Type 0 where
  pub is_byte : d.capabilities.bits < 256
  pub control_bit : contains d.capabilities control ≡ has_control
  pub events_bit : contains d.capabilities events ≡ d.events_connected
  pub link_connected : has_events ≡ true → d.events_connected ≡ true
  pub dfu_wired : contains d.capabilities dfu ≡ true → has_control ≡ true

module _ (b : DeviceCapabilities) (h : b.bits < 256) where
  pub insert-control :
      (contains (insert b control) control ≡ true)
      × (contains (insert b control) events ≡ contains b events)
      × ((contains (insert b control) dfu ≡ contains b dfu) × ((insert b control).bits < 256))
  insert-control = (
    (contains-insert-remove b control control h (inl refl) (inl refl)).0,
    (contains-insert-remove b control events h (inl refl) (inr (inl refl))).0,
    (
      (contains-insert-remove b control dfu h (inl refl) (inr (inr refl))).0,
      (insert-remove-bound b control h (inl refl)).0,
    ),
  )

  pub insert-events :
      (contains (insert b events) control ≡ contains b control)
      × (contains (insert b events) events ≡ true)
      × ((contains (insert b events) dfu ≡ contains b dfu) × ((insert b events).bits < 256))
  insert-events = (
    (contains-insert-remove b events control h (inr (inl refl)) (inl refl)).0,
    (contains-insert-remove b events events h (inr (inl refl)) (inr (inl refl))).0,
    (
      (contains-insert-remove b events dfu h (inr (inl refl)) (inr (inr refl))).0,
      (insert-remove-bound b events h (inr (inl refl))).0,
    ),
  )

  pub remove-events :
      (contains (remove b events) control ≡ contains b control)
      × (contains (remove b events) events ≡ false)
      × ((contains (remove b events) dfu ≡ contains b dfu) × ((remove b events).bits < 256))
  remove-events = (
    (contains-insert-remove b events control h (inr (inl refl)) (inl refl)).1,
    (contains-insert-remove b events events h (inr (inl refl)) (inr (inl refl))).1,
    (
      (contains-insert-remove b events dfu h (inr (inl refl)) (inr (inr refl))).1,
      (insert-remove-bound b events h (inr (inl refl))).1,
    ),
  )

  pub remove-control :
      (contains (remove b control) control ≡ false)
      × (contains (remove b control) events ≡ contains b events)
      × ((contains (remove b control) dfu ≡ contains b dfu) × ((remove b control).bits < 256))
  remove-control = (
    (contains-insert-remove b control control h (inl refl) (inl refl)).1,
    (contains-insert-remove b control events h (inl refl) (inr (inl refl))).1,
    (
      (contains-insert-remove b control dfu h (inl refl) (inr (inr refl))).1,
      (insert-remove-bound b control h (inl refl)).1,
    ),
  )

  pub remove-dfu :
      (contains (remove b dfu) control ≡ contains b control)
      × (contains (remove b dfu) events ≡ contains b events)
      × ((contains (remove b dfu) dfu ≡ false) × ((remove b dfu).bits < 256))
  remove-dfu = (
    (contains-insert-remove b dfu control h (inr (inr refl)) (inl refl)).1,
    (contains-insert-remove b dfu events h (inr (inr refl)) (inr (inl refl))).1,
    (
      (contains-insert-remove b dfu dfu h (inr (inr refl)) (inr (inr refl))).1,
      (insert-remove-bound b dfu h (inr (inr refl))).1,
    ),
  )

module _ {c e : Bool} (d : Device) (g : BitsAgree c e d) where
  pub apply_version-BitsAgree : (v : Reply Version) → BitsAgree c e (apply_version v d)
  unfolding apply_version
  apply_version-BitsAgree (answered v) = ground arith
  apply_version-BitsAgree (failed x) = g
  apply_version-BitsAgree timed_out = g

  pub apply_mode-BitsAgree : (m : Reply TransportMode) → BitsAgree c e (apply_mode e m d)
  unfolding apply_mode
  apply_mode-BitsAgree m =
      ground
        (arith, g, insert-events d.capabilities g.is_byte, remove-events d.capabilities g.is_byte)
