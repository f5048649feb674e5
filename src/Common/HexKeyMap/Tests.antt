-- ===== src/Common/HexKeyMap/Tests.antt =====
-- Keys of two bytes, and the theorems at them.
use odyssey_desktop.Prelude.{
  ℕ, ◌≡◌, refl, [], ◌∷◌, arith, Bytes, bytes_inst, map, Outcome, done, panic, Result, ok, err,
  u8_from_hex, slice, strip_0x,
}
use odyssey_desktop.Prelude.Assoc.{Map, lookup}
use odyssey_desktop.Common.HexKeyMap.{
  hex_byte, hex_bytes, serialize, parse_key, deserialize, VisitError, missing_prefix, wrong_length,
  invalid_byte,
}
use odyssey_desktop.Common.HexKeyMap.RoundTrip.{deserialize-serialize}
use odyssey_desktop.Common.HexKeyMap.Pairs.{key_by_pairs, parse_key-key_by_pairs}
use odyssey_desktop.Common.HexKeyMap.Malformed.{parse_key_panics}

abbrev delays : Map Bytes ℕ
delays = (0xAB ∷ 0x01 ∷ [], 30) ∷ (0xFF ∷ 0x9C ∷ [], 7) ∷ []

-- "0xab01" and "0xff9c".
serialize-delays :
    serialize delays
    ≡ (b'0' ∷ b'x' ∷ b'a' ∷ b'b' ∷ b'0' ∷ b'1' ∷ [], 30)
      ∷ (b'0' ∷ b'x' ∷ b'f' ∷ b'f' ∷ b'9' ∷ b'c' ∷ [], 7)
      ∷ []
unfolding serialize
serialize-delays = refl

abbrev parse_two : Bytes → Outcome (Result Bytes (VisitError ℕ))
parse_two = parse_key 2

abbrev parse_three : Bytes → Outcome (Result Bytes (VisitError ℕ))
parse_three = parse_key 3

parse_samples :
    (parse_two (b'0' ∷ b'x' ∷ b'+' ∷ b'a' ∷ b'0' ∷ b'1' ∷ []) ≡ done (ok (10 ∷ 1 ∷ [])))
    × (parse_two (b'a' ∷ b'b' ∷ []) ≡ done (err (missing_prefix (b'a' ∷ b'b' ∷ []))))
    × (parse_two (b'0' ∷ b'x' ∷ b'a' ∷ []) ≡ done (err (wrong_length 1 (b'0' ∷ b'x' ∷ b'a' ∷ []))))
    × (parse_two (b'0' ∷ b'x' ∷ b'a' ∷ b'g' ∷ b'0' ∷ b'1' ∷ [])
        ≡ done (err (invalid_byte (b'a' ∷ b'g' ∷ []))))
unfolding parse_key strip_0x u8_from_hex slice
parse_samples = (refl, refl, refl, refl)

deserialize-serialize_example : deserialize {E = ℕ} 2 (map ok (serialize delays)) ≡ done (ok delays)
unfolding lookup
deserialize-serialize_example =
    deserialize-serialize 2 delays (refl, omega arith, refl, (refl, omega arith, refl, tt))

-- A sign is taken for a digit; "é" in the place of one is an invalid byte, and across a pair a panic.
parse_key-key_by_pairs_example :
    parse_two (b'0' ∷ b'x' ∷ b'+' ∷ b'a' ∷ 0xC3 ∷ 0xA9 ∷ [])
    ≡ done (err (invalid_byte (0xC3 ∷ 0xA9 ∷ [])))
unfolding key_by_pairs strip_0x u8_from_hex
parse_key-key_by_pairs_example =
    parse_key-key_by_pairs 2 (b'0' ∷ b'x' ∷ b'+' ∷ b'a' ∷ 0xC3 ∷ 0xA9 ∷ [])

parse_key_panics_example :
    parse_three (b'0' ∷ b'x' ∷ b'a' ∷ b'b' ∷ b'a' ∷ 0xC3 ∷ 0xA9 ∷ b'b' ∷ []) ≡ panic
unfolding hex_bytes hex_byte
parse_key_panics_example =
    parse_key_panics 3 (0xAB ∷ []) b'a' 0xC3 0xA9 (b'b' ∷ []) (omega arith, tt) refl (omega arith)
