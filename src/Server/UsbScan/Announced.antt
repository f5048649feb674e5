-- ===== src/Server/UsbScan/Announced.antt =====
-- What a scan announces to the hub, and whether a device is listed after it.
use odyssey_desktop.Prelude.{
  ℕ, ◌≡◌, refl, ap, sym, ◌∙◌, Bool, true, false, Bool-cases, Option-cases, inl, inr, some, List, [],
  ◌∷◌, ◌++◌, Bytes, bytes_inst, bytes_eq, bytes_eq_iff, arith,
}
use odyssey_desktop.Prelude.Assoc.{lookup, remove_key, lookup-remove_key}
use odyssey_desktop.Common.Events.{Event}
use odyssey_desktop.Server.Hub.{
  Message, connect, disconnect, update_device, update_name, dongle_connect, dongle_update,
  dongle_disconnect, event,
}
use odyssey_desktop.Server.Hub.History.{last_link}
use odyssey_desktop.Server.DeviceTask.State.{Parts}
use odyssey_desktop.Server.UsbScan.Probe.{dfu_device}
use odyssey_desktop.Server.UsbScan.Scan.{
  Manager, ScanEffect, announce, command, spawn_task, spawn_hub, abort_hub, member,
}
use odyssey_desktop.Server.UsbScan.Reconcile.{unplug_direct, disconnect_of, unplug_dfu}

last_link_step :
    {S T Ev : Type 0} (u : Bytes) (b : Bool) (m : Message S T Ev) (ms : List (Message S T Ev))
    → last_link u b (m ∷ ms) ≡ last_link u (last_link u b (m ∷ [])) ms
last_link_step u b (connect d c) ms = refl
last_link_step u b (disconnect d) ms = refl
last_link_step u b (update_device d) ms = refl
last_link_step u b (update_name uuid name) ms = refl
last_link_step u b (dongle_connect info tx) ms = refl
last_link_step u b (dongle_update info) ms = refl
last_link_step u b (dongle_disconnect id) ms = refl
last_link_step u b (event e) ms = refl

module _ {P : Parts} where
  -- The messages for the hub among the effects of a scan.
  unfoldable pub announced :
      List (ScanEffect P) → List (Message P.Sender P.DongleSender (Event P.Float P.Packet))
  announced [] = []
  announced (announce m ∷ es) = m ∷ announced es
  announced (command u c ∷ es) = announced es
  announced (spawn_task s ∷ es) = announced es
  announced (spawn_hub i ∷ es) = announced es
  announced (abort_hub i ∷ es) = announced es

  -- Whether `u` is listed after the messages of a scan, if `b` says so before.
  abbrev pub link_after : Bytes → Bool → List (ScanEffect P) → Bool
  link_after u b es = last_link u b (announced es)

  pub link_after-++ :
      (u : Bytes) (b : Bool) (x y : List (ScanEffect P))
      → link_after u b (x ++ y) ≡ link_after u (link_after u b x) y
  unfolding announced
  link_after-++ u b [] y = refl
  link_after-++ u b (announce m ∷ es) y =
      last_link_step u b m (announced (es ++ y))
      ∙ link_after-++ u (last_link u b (m ∷ [])) es y
      ∙ ap (λ c. link_after u c y) (sym (last_link_step u b m (announced es)))
  link_after-++ u b (command v c ∷ es) y = link_after-++ u b es y
  link_after-++ u b (spawn_task s ∷ es) y = link_after-++ u b es y
  link_after-++ u b (spawn_hub i ∷ es) y = link_after-++ u b es y
  link_after-++ u b (abort_hub i ∷ es) y = link_after-++ u b es y

  disconnect_of-off :
      (m : Manager P) (id u : Bytes) → link_after u false (disconnect_of m id) ≡ false
  unfolding disconnect_of announced
  disconnect_of-off m id u = elim (Option-cases (lookup id m.dfu_device_id_to_info)) [
    | inl n ↦ ground (arith, n)
    | inr (v, n) ↦ ground (arith, n)
  ]

  unplug_dfu-off :
      (ids : List Bytes) (m : Manager P) (u : Bytes)
      → link_after u false (unplug_dfu ids m).1 ≡ false
  unfolding unplug_dfu announced
  unplug_dfu-off [] m u = refl
  unplug_dfu-off (j ∷ ids) m u =
      let m1 : Manager P = record m {
        dfu_device_id_to_info = remove_key j m.dfu_device_id_to_info;
      } in
      link_after-++ u false (disconnect_of m j) (unplug_dfu ids m1).1
      ∙ ap (λ b. link_after u b (unplug_dfu ids m1).1) (disconnect_of-off m j u)
      ∙ unplug_dfu-off ids m1 u

  disconnect_of-drops :
      (m : Manager P) (id u : Bytes) (pid : ℕ) (b : Bool)
      → lookup id m.dfu_device_id_to_info ≡ some (u, pid)
      → link_after u b (disconnect_of m id) ≡ false
  unfolding disconnect_of announced dfu_device
  disconnect_of-drops m id u pid b l = ground (arith, l, (bytes_eq_iff u u).1 refl)

  -- The `Disconnect` of a surfaced device that is missing.
  pub unplug_dfu-drops :
      (ids : List Bytes) (m : Manager P) (id u : Bytes) (pid : ℕ) (b : Bool)
      → member id ids ≡ true
      → lookup id m.dfu_device_id_to_info ≡ some (u, pid)
      → link_after u b (unplug_dfu ids m).1 ≡ false
  unfolding unplug_dfu member
  unplug_dfu-drops [] m id u pid b h l = cc
  unplug_dfu-drops (j ∷ ids) m id u pid b h l =
      let m1 : Manager P = record m {
        dfu_device_id_to_info = remove_key j m.dfu_device_id_to_info;
      } in
      link_after-++ u b (disconnect_of m j) (unplug_dfu ids m1).1
      ∙ (elim (Bool-cases (bytes_eq j id)) [
        | inl e ↦
            ap (λ c. link_after u c (unplug_dfu ids m1).1)
              (disconnect_of-drops m j u pid b
                (ap (λ x. lookup x m.dfu_device_id_to_info) ((bytes_eq_iff j id).0 e) ∙ l))
            ∙ unplug_dfu-off ids m1 u
        | inr e ↦
            unplug_dfu-drops ids m1 id u pid (link_after u b (disconnect_of m j))
              (ground (arith, e, h))
              (ground (arith, e, l, lookup-remove_key j id m.dfu_device_id_to_info))
      ])

  pub unplug_direct_same :
      (ids : List Bytes) (m : Manager P)
      → ((unplug_direct ids m).0.device_handles ≡ m.device_handles)
        × ((unplug_direct ids m).0.dfu_device_id_to_info ≡ m.dfu_device_id_to_info)
  unfolding unplug_direct
  unplug_direct_same [] m = (refl, refl)
  unplug_direct_same (id ∷ ids) m =
      unplug_direct_same ids
        (record m { direct_usb_id_to_uuid = remove_key id m.direct_usb_id_to_uuid })
