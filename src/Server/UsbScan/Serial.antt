-- ===== src/Server/UsbScan/Serial.antt =====
-- `uuid_from_usb_serial`: the UUID of a device that only shows its serial number.
use odyssey_desktop.Prelude.{
  Option, none, some, [], ◌∷◌, Bytes, length, ◌==◌, if◌then◌else◌, u8_from_hex,
}
use odyssey_desktop.Prelude.Maybe.{◌>>=◌}
use odyssey_desktop.Server.Firmware.Usb.{clean}

-- The loop over the pairs of digits.
unfoldable pub bytes_of_pairs : Bytes → Option Bytes
bytes_of_pairs [] = some []
bytes_of_pairs (a ∷ []) = none
bytes_of_pairs (a ∷ b ∷ s) =
    u8_from_hex (a ∷ b ∷ []) >>= λ n. bytes_of_pairs s >>= λ bs. some (n ∷ bs)

unfoldable pub uuid_from_usb_serial : Option Bytes → Option Bytes
unfolding clean bytes_of_pairs
uuid_from_usb_serial none = none
uuid_from_usb_serial (some serial) =
    if length (clean serial) == 12 then bytes_of_pairs (clean serial) else none
