-- ===== src/Server/Service/Forwards.antt =====
-- A request reaches the task of its device and no other, and succeeds exactly if the task says so.
use odyssey_desktop.Prelude.{
  ℕ, ◌%◌, ◌^◌, ◌≡◌, ◌∙◌, refl, Bool, true, false, ◌&&◌, if◌then◌else◌, Option, none, some, List, [],
  ◌∷◌, arith, Bytes, bytes_eq, Outcome, done, panic, ◌>>=◌, Result, ok, err, is_ok, Option-cases,
  inl, inr, Bool-cases,
}
use mathlib.Core.Option
use odyssey_desktop.Common.Device.{Device, name_bytes}
use odyssey_desktop.Interface.Proto
use odyssey_desktop.Interface.Devices.{device_from_proto}
use odyssey_desktop.Server.Keyed.{find, modify, find-modify}
use odyssey_desktop.Server.Hub.{device_key}
use odyssey_desktop.Server.Service.{
  DeviceTaskMessage, Status, Tasks, Rpc, reply_status, post, ask, sender_of, on_device,
  on_bare_device, write_vendor_rpc, read_register_rpc, write_register_rpc, read_config_rpc,
  write_config_rpc, flash_settings_rpc, start_pairing_rpc, cancel_pairing_rpc, clear_bond_rpc,
  set_transport_mode_rpc, clear_zero_rpc, reset_zero_rpc, save_zero_rpc, set_device_name_rpc,
}

-- The requests that are handed to a device task.
pub data Request : Type 0 where
  ask_vendor : Option Proto.Device → ℕ → Bytes → Request
  ask_read_register : Option Proto.Device → ℕ → ℕ → ℕ → Request
  ask_write_register : Option Proto.Device → ℕ → ℕ → ℕ → ℕ → Request
  ask_read_config : Option Proto.Device → ℕ → Request
  ask_write_config : Option Proto.Device → ℕ → ℕ → Request
  ask_flash ask_cancel ask_clear_bond : Option Proto.Device → Request
  ask_pairing : Option Proto.Device → ℕ → Request
  ask_transport : Option Proto.Device → Bool → Request
  ask_clear_zero ask_reset_zero ask_save_zero : Proto.Device → Request

-- The device that a request names, and its message.
abbrev pub target : Request → Option Proto.Device
target (ask_vendor p t d) = p
target (ask_read_register p a b c) = p
target (ask_write_register p a b c d) = p
target (ask_read_config p k) = p
target (ask_write_config p k v) = p
target (ask_flash p) = p
target (ask_cancel p) = p
target (ask_clear_bond p) = p
target (ask_pairing p t) = p
target (ask_transport p m) = p
target (ask_clear_zero p) = some p
target (ask_reset_zero p) = some p
target (ask_save_zero p) = some p

abbrev byte : ℕ → ℕ
byte n = n % 2 ^ 8

abbrev pub message : Request → DeviceTaskMessage
message (ask_vendor p t d) = DeviceTaskMessage.write_vendor (byte t) d
message (ask_read_register p a b c) = DeviceTaskMessage.read_register (byte a) (byte b) (byte c)
message (ask_write_register p a b c d) =
    DeviceTaskMessage.write_register (byte a) (byte b) (byte c) (byte d)
message (ask_read_config p k) = DeviceTaskMessage.read_config (byte k)
message (ask_write_config p k v) = DeviceTaskMessage.write_config (byte k) (byte v)
message (ask_flash p) = DeviceTaskMessage.flash_settings
message (ask_cancel p) = DeviceTaskMessage.cancel_pairing
message (ask_clear_bond p) = DeviceTaskMessage.clear_bond
message (ask_pairing p t) = DeviceTaskMessage.start_pairing t
message (ask_transport p m) = DeviceTaskMessage.set_transport_mode m
message (ask_clear_zero p) = DeviceTaskMessage.clear_zero
message (ask_reset_zero p) = DeviceTaskMessage.reset_zero
message (ask_save_zero p) = DeviceTaskMessage.save_zero

-- The messages of an RPC, without its reply.
abbrev pub sent_by : {S M A : Type 0} → Rpc S M A → Outcome (List (S × M))
sent_by panic = panic
sent_by (done (r, sent)) = done sent

module _ {S : Type 0} (tasks : Tasks S DeviceTaskMessage) (dl : List (Device × S)) where
  abbrev pub sent : Request → Outcome (List (S × DeviceTaskMessage))
  sent (ask_vendor p t d) = sent_by (write_vendor_rpc tasks dl p t d)
  sent (ask_read_register p a b c) = sent_by (read_register_rpc tasks dl p a b c)
  sent (ask_write_register p a b c d) = sent_by (write_register_rpc tasks dl p a b c d)
  sent (ask_read_config p k) = sent_by (read_config_rpc tasks dl p k)
  sent (ask_write_config p k v) = sent_by (write_config_rpc tasks dl p k v)
  sent (ask_flash p) = sent_by (flash_settings_rpc tasks dl p)
  sent (ask_cancel p) = sent_by (cancel_pairing_rpc tasks dl p)
  sent (ask_clear_bond p) = sent_by (clear_bond_rpc tasks dl p)
  sent (ask_pairing p t) = sent_by (start_pairing_rpc tasks dl p t)
  sent (ask_transport p m) = sent_by (set_transport_mode_rpc tasks dl p m)
  sent (ask_clear_zero p) = sent_by (clear_zero_rpc tasks dl p)
  sent (ask_reset_zero p) = sent_by (reset_zero_rpc tasks dl p)
  sent (ask_save_zero p) = sent_by (save_zero_rpc tasks dl p)

  -- One message to the task of the device of that UUID, if it is listed.
  abbrev pub addressed :
      Option Proto.Device → DeviceTaskMessage → Outcome (List (S × DeviceTaskMessage))
  addressed none m = done []
  addressed (some p) m = device_from_proto p >>= λ d. elim (find device_key d.uuid dl) [
    | none ↦ done []
    | some e ↦ done ((e.1, m) ∷ [])
  ]

  ask_sent :
      {A : Type 0} (reply : S → DeviceTaskMessage → Option (Result A Bytes))
      (p : Option Proto.Device) (m : DeviceTaskMessage)
      → sent_by (on_device tasks dl p (λ dev. ask tasks reply (sender_of tasks dl dev) m))
        ≡ addressed p m
  unfolding on_device ask sender_of
  ask_sent reply none m = refl
  ask_sent reply (some p) m = ground arith

  post_sent :
      (p : Option Proto.Device) (m : DeviceTaskMessage)
      → sent_by (on_device tasks dl p (λ dev. post tasks (sender_of tasks dl dev) m))
        ≡ addressed p m
  unfolding on_device post sender_of
  post_sent none m = refl
  post_sent (some p) m = ground arith

  -- Each of these requests sends its message to the task of the listed device whose UUID it names, and
  -- nothing to any other. It sends nothing if it names no device or the device is not listed, and
  -- panics exactly if the conversion of the device does.
  pub sent-addressed : (q : Request) → sent q ≡ addressed (target q) (message q)
  unfolding write_vendor_rpc read_register_rpc write_register_rpc read_config_rpc write_config_rpc
      flash_settings_rpc start_pairing_rpc cancel_pairing_rpc clear_bond_rpc set_transport_mode_rpc
      clear_zero_rpc reset_zero_rpc save_zero_rpc on_bare_device
  sent-addressed (ask_vendor p t d) = post_sent p _
  sent-addressed (ask_read_register p a b c) = ask_sent tasks.reply_byte p _
  sent-addressed (ask_write_register p a b c d) = ask_sent tasks.reply_unit p _
  sent-addressed (ask_read_config p k) = ask_sent tasks.reply_byte p _
  sent-addressed (ask_write_config p k v) = ask_sent tasks.reply_unit p _
  sent-addressed (ask_flash p) = ask_sent tasks.reply_unit p _
  sent-addressed (ask_cancel p) = ask_sent tasks.reply_unit p _
  sent-addressed (ask_clear_bond p) = ask_sent tasks.reply_unit p _
  sent-addressed (ask_pairing p t) = ask_sent tasks.reply_unit p _
  sent-addressed (ask_transport p m) = ask_sent tasks.reply_mode p _
  sent-addressed (ask_clear_zero p) = post_sent (some p) DeviceTaskMessage.clear_zero
  sent-addressed (ask_reset_zero p) = post_sent (some p) DeviceTaskMessage.reset_zero
  sent-addressed (ask_save_zero p) = post_sent (some p) DeviceTaskMessage.save_zero

  -- The task of the device takes the new name and confirms it.
  abbrev pub confirms : Device → Bytes → Bool
  confirms dev name = elim (find device_key dev.uuid dl) [
    | none ↦ false
    | some e ↦
        tasks.send e.1 (DeviceTaskMessage.set_device_name name)
        && (elim (tasks.reply_unit e.1 (DeviceTaskMessage.set_device_name name)) [
          | none ↦ false
          | some r ↦ is_ok r
        ])
  ]

  -- What `set_device_name` may give: a reply that is `Ok` exactly if the task confirms the name, and
  -- a list in which the entry of `u` has the new name if it is the device's and the name is confirmed.
  abbrev pub Named :
      Device
      → Bytes
      → Bytes
      → Outcome (Result (Unit {0}) Status × (List (Device × S) × List (S × DeviceTaskMessage)))
      → Type 0
  Named dev name u o =
      (r : Result (Unit {0}) Status) × (l : List (Device × S)) × (m : List (S × DeviceTaskMessage))
      × (o ≡ done (r, (l, m)))
      × (is_ok r ≡ confirms dev name)
      × (find device_key u l ≡ (
          if confirms dev name && bytes_eq dev.uuid u
          then Option.map (λ e. (record (e.0) { name = name_bytes name }, e.1))
              (find device_key u dl)
          else find device_key u dl))

  -- For a device that is converted without a panic, `set_device_name` succeeds exactly if the device
  -- is listed and its task takes the name and confirms it; then the name of that device is the new
  -- one in the list, and otherwise the list is as it was.
  pub set_device_name_rpc_lem :
      (p : Proto.Device) (dev : Device) (name u : Bytes)
      → device_from_proto p ≡ done dev
      → Named dev name u (set_device_name_rpc tasks dl (some p) name)
  unfolding set_device_name_rpc sender_of reply_status
  set_device_name_rpc_lem p dev name u h = elim (Option-cases (find device_key dev.uuid dl)) [
    | inl n ↦
        (err Status.not_found, dl, [], ground (arith, h, n), ground (arith, n), ground (arith, n))
    | inr (e, n) ↦ elim (Bool-cases (tasks.send e.1 (DeviceTaskMessage.set_device_name name))) [
      | inr f ↦ (
        err Status.dropped_reply,
        dl,
        (e.1, DeviceTaskMessage.set_device_name name) ∷ [],
        ground (arith, h, n, f),
        ground (arith, n, f),
        ground (arith, n, f),
      )
      | inl t ↦
          elim (Option-cases (tasks.reply_unit e.1 (DeviceTaskMessage.set_device_name name))) [
            | inl d ↦ (
              err Status.dropped_reply,
              dl,
              (e.1, DeviceTaskMessage.set_device_name name) ∷ [],
              ground (arith, h, n, t, d),
              ground (arith, n, t, d),
              ground (arith, n, t, d),
            )
            | inr (r, d) ↦ answered e n t r d
          ]
    ]
  ]
    where
      answered :
          (e : Device × S)
          → find device_key dev.uuid dl ≡ some e
          → tasks.send e.1 (DeviceTaskMessage.set_device_name name) ≡ true
          → (r : Result (Unit {0}) Bytes)
          → tasks.reply_unit e.1 (DeviceTaskMessage.set_device_name name) ≡ some r
          → Named dev name u (set_device_name_rpc tasks dl (some p) name)
      answered e n t (err x) d = (
        err (Status.failed x),
        dl,
        (e.1, DeviceTaskMessage.set_device_name name) ∷ [],
        ground (arith, h, n, t, d),
        ground (arith, n, t, d),
        ground (arith, n, t, d),
      )
      answered e n t (ok x) d = (
        ok tt,
        modify device_key dev.uuid (λ e. (record (e.0) { name = name_bytes name }, e.1)) dl,
        (e.1, DeviceTaskMessage.set_device_name name) ∷ [],
        ground (arith, h, n, t, d),
        ground (arith, n, t, d),
        find-modify device_key dev.uuid u _ dl (λ y q. q) ∙ ground (arith, n, t, d),
      )
