-- ===== src/Common/Device/Tests.antt =====
-- Device names and capability bits at concrete values, and the theorems at them.
use odyssey_desktop.Prelude.{◌≡◌, refl, true, false, [], ◌∷◌, ◌++◌, arith, Bytes, length, replicate}
use odyssey_desktop.Common.Device.{
  Device, Transport, EventsTransport, utf8_valid, name_str, set_name,
}
use odyssey_desktop.Common.Device.Name.{name_str-set_name, name_str-set_name_split}

abbrev lite : Device
lite = record {
  uuid = 0xAA ∷ 0xBB ∷ 0xCC ∷ 0xDD ∷ 0xEE ∷ 0xFF ∷ [];
  transport = Transport.usb;
  capabilities = record { bits = 3 };
  firmware_version = record { major = 0; minor = 1; patch = 2 };
  events_transport = EventsTransport.wired;
  events_connected = true;
  product_id = 0x5211;
  name = replicate 33 0;
}

-- "é" and "€" are valid; a lone tail byte and an overlong form are not.
utf8_samples :
    (utf8_valid (0xC3 ∷ 0xA9 ∷ 0xE2 ∷ 0x82 ∷ 0xAC ∷ []) ≡ true)
    × (utf8_valid (0x80 ∷ []) ≡ false)
    × (utf8_valid (0xE0 ∷ 0x80 ∷ 0x80 ∷ []) ≡ false)
unfolding utf8_valid
utf8_samples = (refl, refl, refl)

set_name-lite : name_str (set_name lite (b'a' ∷ b'b' ∷ [])) ≡ b'a' ∷ b'b' ∷ []
unfolding name_str set_name
set_name-lite = refl

name_str-set_name_example :
    (name_str (set_name lite (b'a' ∷ 0 ∷ b'b' ∷ [])) ≡ b'a' ∷ [])
    × (length (set_name lite (b'a' ∷ 0 ∷ b'b' ∷ [])).name ≡ 33)
unfolding utf8_valid
name_str-set_name_example = name_str-set_name lite (b'a' ∷ 0 ∷ b'b' ∷ [])

abbrev prefix : Bytes
prefix = replicate 31 b'x'

name_str-set_name_split_example :
    (utf8_valid (prefix ++ 0xC3 ∷ 0xA9 ∷ []) ≡ utf8_valid [])
    × (name_str (set_name lite (prefix ++ 0xC3 ∷ 0xA9 ∷ [])) ≡ [])
name_str-set_name_split_example =
    name_str-set_name_split lite prefix 0xC3 0xA9 [] refl (omega arith) (omega arith) (omega arith)
