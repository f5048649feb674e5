-- ===== src/Common/HexKeyMap.antt =====
-- odyssey_hub_common/src/hexkeymap.rs: maps whose `[u8; N]` keys are written as hex strings. The
-- serializer and the deserializer (serde) are the list of entries that is handed to the one and
-- yielded by the other, where reading an entry may fail with an error of type `E`.
pub mod RoundTrip
pub mod WellFormed
pub mod Pairs
pub mod Malformed
pub mod Tests
use odyssey_desktop.Prelude.{
  ℕ, zero, suc, ◌+◌, ◌*◌, ◌/◌, ◌%◌, Option, none, some, List, [], ◌∷◌, ◌++◌, Bytes, ◌==◌, not,
  if◌then◌else◌, length, set, replicate, Outcome, done, panic, ◌>>=◌, Result, ok, err, slice,
  strip_0x, u8_from_hex, lower_digit, bytes_inst,
}
use odyssey_desktop.Prelude.Assoc.{Map, insert}

-- `format!("{:02x}", b)`
pub hex_byte : ℕ → Bytes
hex_byte b = lower_digit (b / 16) ∷ lower_digit (b % 16) ∷ []

pub hex_bytes : Bytes → Bytes
unfolding hex_byte
hex_bytes [] = []
hex_bytes (b ∷ bs) = hex_byte b ++ hex_bytes bs

pub key_str : Bytes → Bytes
unfolding hex_bytes
key_str bytes = b'0' ∷ b'x' ∷ hex_bytes bytes

unfoldable pub serialize {ℓ} : {T : Type ℓ} → Map Bytes T → List (Bytes × T)
unfolding key_str
serialize [] = []
serialize ((bytes, value) ∷ m) = (key_str bytes, value) ∷ serialize m

-- What the visitor returns as an error: the deserializer's own, or one of its three messages with
-- the values that it prints.
pub data VisitError (E : Type 0) : Type 0 where
  access : E → VisitError E
  missing_prefix : Bytes → VisitError E
  wrong_length : ℕ → Bytes → VisitError E
  invalid_byte : Bytes → VisitError E

module _ {E : Type 0} (N : ℕ) where
  -- The loop over `i` in `0..N`, with `k` rounds left.
  pub read_bytes : Bytes → ℕ → ℕ → Bytes → Outcome (Result Bytes (VisitError E))
  read_bytes s zero i arr = done (ok arr)
  read_bytes s (suc k) i arr = slice s (2 * i) (2 * i + 2) >>= λ byte_str.
      elim (u8_from_hex byte_str) [
        | none ↦ done (err (invalid_byte byte_str))
        | some v ↦ read_bytes s k (i + 1) (set arr i v)
      ]

  pub parse_key : Bytes → Outcome (Result Bytes (VisitError E))
  unfolding read_bytes
  parse_key key = elim (strip_0x key) [
    | none ↦ done (err (missing_prefix key))
    | some s ↦
        if not (length s == 2 * N)
        then done (err (wrong_length (length s) key))
        else read_bytes s N 0 (replicate N 0)
  ]

  -- The loop over the entries, with the map built so far.
  pub visit_entries {ℓ} :
      {T : Type ℓ}
      → List (Result (Bytes × T) E)
      → Map Bytes T
      → Outcome (Result (Map Bytes T) (VisitError E))
  visit_entries [] values = done (ok values)
  visit_entries (err e ∷ entries) values = done (err (access e))
  visit_entries (ok (key, value) ∷ entries) values = parse_key key >>= λ r. elim r [
    | err e ↦ done (err e)
    | ok arr ↦ visit_entries entries (insert arr value values)
  ]

  unfoldable pub deserialize {ℓ} :
      {T : Type ℓ} → List (Result (Bytes × T) E) → Outcome (Result (Map Bytes T) (VisitError E))
  unfolding visit_entries parse_key insert
  deserialize entries = visit_entries entries []
