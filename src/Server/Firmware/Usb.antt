-- ===== src/Server/Firmware/Usb.antt =====
-- The search for a USB device of firmware.rs. `Info` stands for the USB library's `DeviceInfo` with
-- its accessors, and the list of devices is what the library returns.
pub mod Search
pub mod Tests
use odyssey_desktop.Prelude.{
  ℕ, ◌+◌, ◌/◌, ◌%◌, Bool, true, false, ◌&&◌, ◌||◌, Option, none, some, List, [], ◌∷◌, Bytes,
  bytes_eq, leb, ◌==◌, if◌then◌else◌, Result, ok, err, find?, upper_digit, map,
}

-- `format!("{:02X}…")` of the bytes.
unfoldable pub uuid_hex : Bytes → Bytes
uuid_hex [] = []
uuid_hex (b ∷ bs) = upper_digit (b / 16) ∷ upper_digit (b % 16) ∷ uuid_hex bs

-- `char::is_ascii_hexdigit`
abbrev pub is_hex_digit : ℕ → Bool
is_hex_digit c = leb b'0' c && leb c b'9' || leb b'a' c && leb c b'f' || leb b'A' c && leb c b'F'

-- `to_ascii_lowercase`
abbrev pub to_lower : ℕ → ℕ
to_lower c = if leb b'A' c && leb c b'Z' then c + 32 else c

-- `filter(is_ascii_hexdigit)`; the bytes of other characters are no hex digits.
unfoldable pub clean : Bytes → Bytes
clean [] = []
clean (c ∷ s) = let rest = clean s in if is_hex_digit c then c ∷ rest else rest

-- `eq_ignore_ascii_case`
unfoldable pub eq_ignore_case : Bytes → Bytes → Bool
eq_ignore_case [] [] = true
eq_ignore_case [] (d ∷ t) = false
eq_ignore_case (c ∷ s) [] = false
eq_ignore_case (c ∷ s) (d ∷ t) = to_lower c == to_lower d && eq_ignore_case s t

unfoldable pub serial_matches : Bytes → Bytes → Bool
unfolding uuid_hex clean eq_ignore_case
serial_matches uuid serial = eq_ignore_case (clean serial) (uuid_hex uuid)

pub data DfuError (E : Type 0) : Type 0 where
  device_not_found : DfuError E
  usb : E → DfuError E

-- `DEVICE_MAP`, without the names.
abbrev pub device_map : List (ℕ × ℕ)
device_map = (0x1915, 0x5210) ∷ (0x1915, 0x5211) ∷ (0x1915, 0x5212) ∷ []

pub record UsbApi (Info : Type 0) : Type 0 where
  pub vendor_id : Info → ℕ
  pub product_id : Info → ℕ
  pub serial_number : Info → Option Bytes

module _ {Info : Type 0} (api : UsbApi Info) where
  abbrev pub has_ids : ℕ → ℕ → Info → Bool
  has_ids vid pid dev = api.vendor_id dev == vid && api.product_id dev == pid

  -- `serial_number().map(…).unwrap_or(false)`
  abbrev pub has_serial : Bytes → Info → Bool
  has_serial uuid dev = elim (api.serial_number dev) [
    | none ↦ false
    | some s ↦ serial_matches uuid s
  ]

  -- `filter(…).collect()`
  pub with_ids : ℕ → ℕ → List Info → List Info
  with_ids vid pid [] = []
  with_ids vid pid (dev ∷ devs) =
      let rest = with_ids vid pid devs in if has_ids vid pid dev then dev ∷ rest else rest

  pub find_device : {E : Type 0} → Result (List Info) E → ℕ → ℕ → Result Info (DfuError E)
  find_device (err e) vid pid = err (usb e)
  find_device (ok devs) vid pid = elim (find? (has_ids vid pid) devs) [
    | none ↦ err device_not_found
    | some dev ↦ ok dev
  ]

  pub find_device_by_uuid :
      {E : Type 0} → Bytes → Result (List Info) E → ℕ → ℕ → Result Info (DfuError E)
  unfolding with_ids
  find_device_by_uuid uuid (err e) vid pid = err (usb e)
  find_device_by_uuid uuid (ok devs) vid pid =
      let devices = with_ids vid pid devs in
      elim (find? (has_serial uuid) devices) [
        | some dev ↦ ok dev
        | none ↦ elim devices [ [] ↦ err device_not_found | dev ∷ rest ↦ ok dev ]
      ]
