-- ===== src/Common/HexKeyMap/Malformed.antt =====
-- Keys that are not what `serialize` writes.
use odyssey_desktop.Prelude.{
  ℕ, ◌*◌, ◌/◌, ◌%◌, ◌≤◌, ◌≡◌, ap, ◌∙◌, true, some, [], ◌∷◌, ◌++◌, All, arith, Bytes, length, panic,
  strip_0x, u8_from_hex, hex_value, is_tail, lower_digit, Bool-cases, inl, inr, ==_iff,
}
use odyssey_desktop.Common.HexKeyMap.{parse_key, hex_bytes, hex_byte}
use odyssey_desktop.Common.HexKeyMap.RoundTrip.{IsByte, u8_from_hex-hex_byte}
use odyssey_desktop.Common.HexKeyMap.Pairs.{
  begins_whole, behind, read_pairs, read_pairs_cut, read_pairs_step, key_by_pairs,
  parse_key-key_by_pairs,
}

module _ {E : Type 0} where
  read_pairs_ends_inside :
      (bs : Bytes) (a c b : ℕ) (rest : Bytes)
      → All IsByte bs
      → is_tail b ≡ true
      → read_pairs {E = E} (hex_bytes bs ++ a ∷ c ∷ b ∷ rest) ≡ panic
  unfolding read_pairs hex_bytes hex_byte
  read_pairs_ends_inside [] a c b rest h t = ground (arith, t)
  read_pairs_ends_inside (v ∷ bs) a c b rest h t =
      let s = hex_bytes bs ++ a ∷ c ∷ b ∷ rest in
      elim (Bool-cases (begins_whole s)) [
        | inl w ↦
            read_pairs_step (lower_digit (v / 16)) (lower_digit (v % 16)) s v w
              (u8_from_hex-hex_byte v h.0)
            ∙ ap (behind (v ∷ [])) (read_pairs_ends_inside bs a c b rest h.1 t)
        | inr w ↦ read_pairs_cut (lower_digit (v / 16)) (lower_digit (v % 16)) s w
      ]

  -- A key with the prefix and the right length makes the visitor panic if it has the digits of some
  -- bytes as they are written (none, perhaps), then two bytes that are anything, and then a byte that
  -- continues a character.
  pub parse_key_panics :
      (N : ℕ) (bs : Bytes) (a c b : ℕ) (rest : Bytes)
      → All IsByte bs
      → length (hex_bytes bs ++ a ∷ c ∷ b ∷ rest) ≡ 2 * N
      → (0x80 ≤ b) × (b ≤ 0xBF)
      → parse_key {E = E} N (b'0' ∷ b'x' ∷ hex_bytes bs ++ a ∷ c ∷ b ∷ rest) ≡ panic
  unfolding key_by_pairs strip_0x
  parse_key_panics N bs a c b rest h len tail =
      let s = hex_bytes bs ++ a ∷ c ∷ b ∷ rest in
      parse_key-key_by_pairs N (b'0' ∷ b'x' ∷ s)
      ∙ rw ((==_iff (length s) (2 * N)).1 len)
          (read_pairs_ends_inside bs a c b rest h (ground (arith, tail)))

-- A sign is read as a digit: `+d` is the byte `0d`.
pub u8_from_hex_plus :
    (d v : ℕ) → hex_value d ≡ some v → u8_from_hex (b'+' ∷ d ∷ []) ≡ u8_from_hex (b'0' ∷ d ∷ [])
unfolding u8_from_hex hex_value
u8_from_hex_plus d v h = ground arith
