-- ===== src/Common/Device.antt =====
-- odyssey_hub_common/src/device.rs: a device, its capability bits and its name buffer.
-- A `&str` is the list of its UTF-8 bytes; `[u8; N]` is a list of N bytes.
mod Utf8
pub mod Capabilities
pub mod Name
pub mod Tests
use Prim.Native.Nat.{bit_and, bit_or}
use odyssey_desktop.Prelude.{
  ℕ, ◌-◌, ◌++◌, Bool, Option, none, some, List, [], ◌∷◌, Bytes, bytes_eq, ◌==◌, if◌then◌else◌, min,
  suc, length, take, drop, replicate,
}
unfoldable pub use Utf8.{utf8_valid}

pub data Transport : Type 0 where
  usb usb_mux udp_mux : Transport

pub record DeviceCapabilities : Type 0 where
  pub bits : ℕ

abbrev pub control : ℕ
control = 1

abbrev pub events : ℕ
events = 2

abbrev pub dfu : ℕ
dfu = 4

unfoldable pub contains : DeviceCapabilities → ℕ → Bool
contains c flag = bit_and c.bits flag == flag

unfoldable pub insert : DeviceCapabilities → ℕ → DeviceCapabilities
insert c flag = record { bits = bit_or c.bits flag }

-- `!flag` on a `u8` is `255 - flag`.
unfoldable pub remove : DeviceCapabilities → ℕ → DeviceCapabilities
remove c flag = record { bits = bit_and c.bits (255 - flag) }

pub data EventsTransport : Type 0 where
  wired bluetooth : EventsTransport

-- `[u16; 3]`: major, minor, patch.
pub record Version : Type 0 where
  pub major : ℕ
  pub minor : ℕ
  pub patch : ℕ

pub record Device : Type 0 where
  pub uuid : Bytes
  pub transport : Transport
  pub capabilities : DeviceCapabilities
  pub firmware_version : Version
  pub events_transport : EventsTransport
  pub events_connected : Bool
  pub product_id : ℕ
  pub name : Bytes

-- `buf[..len].copy_from_slice(&bytes[..len])`, for `len` within both.
unfoldable pub copy_prefix : Bytes → Bytes → ℕ → Bytes
copy_prefix buf bytes len = take len bytes ++ drop len buf

unfoldable pub name_bytes : Bytes → Bytes
unfolding copy_prefix
name_bytes s = let len = min (length s) 32 in copy_prefix (replicate 33 0) s len

-- `iter().position(|&b| b == 0)`
position_zero : Bytes → Option ℕ
position_zero [] = none
position_zero (b ∷ bs) =
    if b == 0 then some 0 else elim (position_zero bs) [ none ↦ none | some i ↦ some (suc i) ]

unfoldable pub name_str : Device → Bytes
unfolding position_zero utf8_valid
name_str d =
    let nul : ℕ = elim (position_zero d.name) [ none ↦ 33 | some i ↦ i ] in
    let s = take nul d.name in if utf8_valid s then s else []

unfoldable pub set_name : Device → Bytes → Device
unfolding copy_prefix
set_name d s = let len = min (length s) 32 in record d { name = copy_prefix (replicate 33 0) s len }

unfoldable pub uuid_eq : Device → Device → Bool
uuid_eq d other = bytes_eq d.uuid other.uuid
