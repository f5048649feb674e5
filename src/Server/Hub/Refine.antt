-- ===== src/Server/Hub/Refine.antt =====
-- The two lists refine finite maps: from device UUIDs and from dongle ids.
use mathlib.Core.Option
use mathlib.Core.Path.{fun_ext}
use odyssey_desktop.Prelude.{
  ◌≡◌, refl, ap, ◌∙◌, Option, none, some, List, [], ◌∷◌, arith, Bytes, bytes_eq, bytes_eq_iff,
  if◌then◌else◌,
}
use odyssey_desktop.Common.Device.{Device, name_bytes}
use odyssey_desktop.Server.Keyed.{
  find, Unique, locate, absent, present, find-set, find-append, find-modify, find-remove_at,
  Unique-set, Unique-remove_at, Unique-append, Unique-modify,
}
use odyssey_desktop.Server.Hub.{
  Hub, Message, DongleInfo, device_key, dongle_key, replace_first, connect_device,
  disconnect_device, connect_dongle, update_dongle, disconnect_dongle, handle, run, connect,
  disconnect, update_device, update_name, dongle_connect, dongle_update, dongle_disconnect, event,
}

module _ {S : Type 0} where
  abbrev pub find_device : Bytes → List (Device × S) → Option (Device × S)
  find_device = find device_key

  abbrev pub sender_or : S → Option (Device × S) → S
  sender_or tx none = tx
  sender_or tx (some e) = e.1

  -- What `Connect` puts in the map: the sender that it brings, else the one that is there, else the
  -- dummy.
  abbrev pub connected : S → Device → Option S → Option (Device × S) → Option (Device × S)
  connected dummy_tx d none old = some (d, sender_or dummy_tx old)
  connected dummy_tx d (some tx) old = some (d, tx)

  connect_device-find :
      (dummy_tx : S) (d : Device) (c : Option S) (dl : List (Device × S)) (u : Bytes)
      → find_device u (connect_device dummy_tx d c dl) ≡ (
          if bytes_eq d.uuid u then connected dummy_tx d c (find_device u dl) else find_device u dl)
  unfolding connect_device
  connect_device-find dummy_tx d none dl u = elim (locate device_key d.uuid dl) [
    | absent p f ↦
        ground (arith, p, f, bytes_eq_iff d.uuid u, find-append device_key u dl (d, dummy_tx))
    | present i x p g k f ↦
        ground
          (arith, p, g, f, k, bytes_eq_iff d.uuid u, find-set device_key d.uuid u dl i (d, x.1))
  ]
  connect_device-find dummy_tx d (some tx) dl u = elim (locate device_key d.uuid dl) [
    | absent p f ↦ ground (arith, p, f, bytes_eq_iff d.uuid u, find-append device_key u dl (d, tx))
    | present i x p g k f ↦
        ground (arith, p, g, f, k, bytes_eq_iff d.uuid u, find-set device_key d.uuid u dl i (d, tx))
  ]

  connect_device-Unique :
      (dummy_tx : S) (d : Device) (c : Option S) (dl : List (Device × S))
      → Unique device_key dl
      → Unique device_key (connect_device dummy_tx d c dl)
  unfolding connect_device
  connect_device-Unique dummy_tx d none dl h = elim (locate device_key d.uuid dl) [
    | absent p f ↦ rw (p, connect_device) (Unique-append device_key dl (d, dummy_tx) f h)
    | present i x p g k f ↦
        rw (p, connect_device)
          (rw (g, replace_first) (Unique-set device_key d.uuid dl i (d, x.1) p refl h))
  ]
  connect_device-Unique dummy_tx d (some tx) dl h = elim (locate device_key d.uuid dl) [
    | absent p f ↦ rw (p, connect_device) (Unique-append device_key dl (d, tx) f h)
    | present i x p g k f ↦
        rw (p, connect_device) (Unique-set device_key d.uuid dl i (d, tx) p refl h)
  ]

  disconnect_device-find :
      (d : Device) (dl : List (Device × S)) (u : Bytes)
      → Unique device_key dl
      → find_device u (disconnect_device d dl)
        ≡ (if bytes_eq d.uuid u then none else find_device u dl)
  unfolding disconnect_device
  disconnect_device-find d dl u h = elim (locate device_key d.uuid dl) [
    | absent p f ↦ ground (arith, p, f, bytes_eq_iff d.uuid u)
    | present i x p g k f ↦ ground (arith, p, find-remove_at device_key d.uuid u dl i p h)
  ]

  disconnect_device-Unique :
      (d : Device) (dl : List (Device × S))
      → Unique device_key dl
      → Unique device_key (disconnect_device d dl)
  unfolding disconnect_device
  disconnect_device-Unique d dl h = elim (locate device_key d.uuid dl) [
    | absent p f ↦ rw (p, disconnect_device) h
    | present i x p g k f ↦ rw (p, disconnect_device) (Unique-remove_at device_key dl i h)
  ]

module _ {T : Type 0} where
  abbrev pub find_dongle : Bytes → List (DongleInfo × T) → Option (DongleInfo × T)
  find_dongle = find dongle_key

  connect_dongle-find :
      (info : DongleInfo) (tx : T) (dl : List (DongleInfo × T)) (u : Bytes)
      → find_dongle u (connect_dongle info tx dl)
        ≡ (if bytes_eq info.id u then some (info, tx) else find_dongle u dl)
  unfolding connect_dongle
  connect_dongle-find info tx dl u = elim (locate dongle_key info.id dl) [
    | absent p f ↦
        ground (arith, p, f, bytes_eq_iff info.id u, find-append dongle_key u dl (info, tx))
    | present i x p g k f ↦ ground (arith, p, find-set dongle_key info.id u dl i (info, tx))
  ]

  connect_dongle-Unique :
      (info : DongleInfo) (tx : T) (dl : List (DongleInfo × T))
      → Unique dongle_key dl
      → Unique dongle_key (connect_dongle info tx dl)
  unfolding connect_dongle
  connect_dongle-Unique info tx dl h = elim (locate dongle_key info.id dl) [
    | absent p f ↦ rw (p, connect_dongle) (Unique-append dongle_key dl (info, tx) f h)
    | present i x p g k f ↦
        rw (p, connect_dongle) (Unique-set dongle_key info.id dl i (info, tx) p refl h)
  ]

  update_dongle-find :
      (info : DongleInfo) (dl : List (DongleInfo × T)) (u : Bytes)
      → find_dongle u (update_dongle info dl) ≡ (
          if bytes_eq info.id u
          then Option.map (λ e. (info, e.1)) (find_dongle u dl)
          else find_dongle u dl)
  unfolding update_dongle
  update_dongle-find info dl u = elim (locate dongle_key info.id dl) [
    | absent p f ↦ ground (arith, p, f, bytes_eq_iff info.id u)
    | present i x p g k f ↦
        ground
          (arith, p, g, f, bytes_eq_iff info.id u, find-set dongle_key info.id u dl i (info, x.1))
  ]

  update_dongle-Unique :
      (info : DongleInfo) (dl : List (DongleInfo × T))
      → Unique dongle_key dl
      → Unique dongle_key (update_dongle info dl)
  unfolding update_dongle
  update_dongle-Unique info dl h = elim (locate dongle_key info.id dl) [
    | absent p f ↦ rw (p, update_dongle) h
    | present i x p g k f ↦
        rw (p, update_dongle)
          (rw (g, replace_first) (Unique-set dongle_key info.id dl i (info, x.1) p refl h))
  ]

  disconnect_dongle-find :
      (id : Bytes) (dl : List (DongleInfo × T)) (u : Bytes)
      → Unique dongle_key dl
      → find_dongle u (disconnect_dongle id dl) ≡ (if bytes_eq id u then none else find_dongle u dl)
  unfolding disconnect_dongle
  disconnect_dongle-find id dl u h = elim (locate dongle_key id dl) [
    | absent p f ↦ ground (arith, p, f, bytes_eq_iff id u)
    | present i x p g k f ↦ ground (arith, p, find-remove_at dongle_key id u dl i p h)
  ]

  disconnect_dongle-Unique :
      (id : Bytes) (dl : List (DongleInfo × T))
      → Unique dongle_key dl
      → Unique dongle_key (disconnect_dongle id dl)
  unfolding disconnect_dongle
  disconnect_dongle-Unique id dl h = elim (locate dongle_key id dl) [
    | absent p f ↦ rw (p, disconnect_dongle) h
    | present i x p g k f ↦ rw (p, disconnect_dongle) (Unique-remove_at dongle_key dl i h)
  ]

-- The hub as two finite maps.
pub record View (S T : Type 0) : Type 0 where
  pub device : Bytes → Option (Device × S)
  pub dongle : Bytes → Option (DongleInfo × T)

abbrev pub update_at :
    {A : Type 0} → (Bytes → Option A) → Bytes → (Option A → Option A) → Bytes → Option A
update_at f k g u = if bytes_eq k u then g (f u) else f u

module _ {S T : Type 0} where
  abbrev pub view : Hub S T → View S T
  view h = record {
    device = λ u. find_device u h.device_list;
    dongle = λ u. find_dongle u h.dongle_list;
  }

  -- No UUID and no dongle id is listed twice.
  pub record IsUnique (h : Hub S T) : Type 0 where
    pub devices : Unique device_key h.device_list
    pub dongles : Unique dongle_key h.dongle_list

  devices_change :
      (h : Hub S T) (dl : List (Device × S)) (f : Bytes → Option (Device × S))
      → ((u : Bytes) → find_device u dl ≡ f u)
      → view (record h { device_list = dl }) ≡ record (view h) { device = f }
  devices_change h dl f e =
      ap (λ (g : Bytes → Option (Device × S)). record (view h) { device = g }) (fun_ext e)

  dongles_change :
      (h : Hub S T) (dl : List (DongleInfo × T)) (f : Bytes → Option (DongleInfo × T))
      → ((u : Bytes) → find_dongle u dl ≡ f u)
      → view (record h { dongle_list = dl }) ≡ record (view h) { dongle = f }
  dongles_change h dl f e =
      ap (λ (g : Bytes → Option (DongleInfo × T)). record (view h) { dongle = g }) (fun_ext e)

module _ {S T Ev : Type 0} (dummy_tx : S) where
  -- What each message is meant to do to the maps.
  abbrev pub spec_step : View S T → Message S T Ev → View S T
  spec_step v (connect d c) = record v {
    device = update_at v.device d.uuid (connected dummy_tx d c);
  }
  spec_step v (disconnect d) = record v { device = update_at v.device d.uuid (λ _. none) }
  spec_step v (update_device d) = record v {
    device = update_at v.device d.uuid (Option.map λ e. (d, e.1));
  }
  spec_step v (update_name uuid name) = record v {
    device =
        update_at v.device uuid (Option.map λ e. (record (e.0) { name = name_bytes name }, e.1));
  }
  spec_step v (dongle_connect info tx) = record v {
    dongle = update_at v.dongle info.id (λ _. some (info, tx));
  }
  spec_step v (dongle_update info) = record v {
    dongle = update_at v.dongle info.id (Option.map λ e. (info, e.1));
  }
  spec_step v (dongle_disconnect id) = record v { dongle = update_at v.dongle id (λ _. none) }
  spec_step v (event e) = v

  abbrev pub spec_run : View S T → List (Message S T Ev) → View S T
  spec_run v [] = v
  spec_run v (m ∷ ms) = spec_run (spec_step v m) ms

  -- Each message changes the maps as meant, for a hub that lists no key twice.
  pub handle_refines :
      (h : Hub S T) (m : Message S T Ev)
      → IsUnique h
      → view (handle dummy_tx h m).0 ≡ spec_step (view h) m
  unfolding handle
  handle_refines h (connect d c) v =
      devices_change h _ _ (connect_device-find dummy_tx d c h.device_list)
  handle_refines h (disconnect d) v =
      devices_change h _ _ (λ u. disconnect_device-find d h.device_list u v.devices)
  handle_refines h (update_device d) v =
      devices_change h _ _ (λ u. find-modify device_key d.uuid u _ h.device_list (λ x _. refl))
  handle_refines h (update_name uuid name) v =
      devices_change h _ _ (λ u. find-modify device_key uuid u _ h.device_list (λ x e. e))
  handle_refines h (dongle_connect info tx) v =
      dongles_change h _ _ (connect_dongle-find info tx h.dongle_list)
  handle_refines h (dongle_update info) v =
      dongles_change h _ _ (update_dongle-find info h.dongle_list)
  handle_refines h (dongle_disconnect id) v =
      dongles_change h _ _ (λ u. disconnect_dongle-find id h.dongle_list u v.dongles)
  handle_refines h (event e) v = refl

  -- No message lists a key twice.
  pub handle-IsUnique :
      (h : Hub S T) (m : Message S T Ev) → IsUnique h → IsUnique (handle dummy_tx h m).0
  unfolding handle
  handle-IsUnique h (connect d c) v = record {
    devices = connect_device-Unique dummy_tx d c _ v.devices;
    dongles = v.dongles;
  }
  handle-IsUnique h (disconnect d) v = record {
    devices = disconnect_device-Unique d _ v.devices;
    dongles = v.dongles;
  }
  handle-IsUnique h (update_device d) v = record {
    devices = Unique-modify device_key d.uuid _ _ (λ x _. refl) v.devices;
    dongles = v.dongles;
  }
  handle-IsUnique h (update_name uuid name) v = record {
    devices = Unique-modify device_key uuid _ _ (λ x e. e) v.devices;
    dongles = v.dongles;
  }
  handle-IsUnique h (dongle_connect info tx) v = record {
    devices = v.devices;
    dongles = connect_dongle-Unique info tx _ v.dongles;
  }
  handle-IsUnique h (dongle_update info) v = record {
    devices = v.devices;
    dongles = update_dongle-Unique info _ v.dongles;
  }
  handle-IsUnique h (dongle_disconnect id) v = record {
    devices = v.devices;
    dongles = disconnect_dongle-Unique id _ v.dongles;
  }
  handle-IsUnique h (event e) v = v

  run-IsUnique :
      (ms : List (Message S T Ev)) (h : Hub S T) → IsUnique h → IsUnique (run dummy_tx h ms).0
  unfolding run
  run-IsUnique [] h v = v
  run-IsUnique (m ∷ ms) h v = run-IsUnique ms (handle dummy_tx h m).0 (handle-IsUnique h m v)

  -- After any messages the hub holds the maps that the messages are meant to leave, and lists no key
  -- twice, if it did not at the start.
  pub run_refines :
      (ms : List (Message S T Ev)) (h : Hub S T)
      → IsUnique h
      → (view (run dummy_tx h ms).0 ≡ spec_run (view h) ms) × IsUnique (run dummy_tx h ms).0
  unfolding run
  run_refines [] h v = (refl, v)
  run_refines (m ∷ ms) h v =
      let (e, u) = run_refines ms (handle dummy_tx h m).0 (handle-IsUnique h m v) in
      (e ∙ ap (λ w. spec_run w ms) (handle_refines h m v), u)
