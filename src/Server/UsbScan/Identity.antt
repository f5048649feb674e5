-- ===== src/Server/UsbScan/Identity.antt =====
-- How a scan learns the UUID of a device: from its serial number, or by asking at most three times.
use odyssey_desktop.Prelude.{
  ℕ, ◌+◌, ◌*◌, ◌/◌, ◌%◌, ◌≤◌, ◌<◌, ◌≡◌, refl, subst, Bool, true, false, ◌&&◌, Bool-cases,
  Option-cases, inl, inr, Option, none, some, [], ◌∷◌, Bytes, arith, if◌then◌else◌, ◌==◌, leb, ltb,
  length, u8_from_hex, hex_digits, hex_value, upper_digit,
}
use odyssey_desktop.Server.Firmware.Usb.{
  uuid_hex, is_hex_digit, to_lower, clean, eq_ignore_case, serial_matches,
}
use odyssey_desktop.Server.UsbScan.Serial.{bytes_of_pairs, uuid_from_usb_serial}
use odyssey_desktop.Server.UsbScan.Probe.{
  ProductId, UuidAnswer, read_as, other_prop, failed_read, read_attempts, read_uuid_with_retry,
}

abbrev pub uuid_of : UuidAnswer → Option Bytes
uuid_of (read_as u) = some u
uuid_of other_prop = none
uuid_of failed_read = none

-- The UUID is asked for once, twice or three times; the result is what the last asking gave, and no
-- asking before that gave a UUID.
pub read_uuid_with_retry_bound :
    (q : ProductId) (answer : ℕ → UuidAnswer) (i : ℕ)
    → let (u, asked) = read_uuid_with_retry q answer in
      (1 ≤ asked)
      × (asked ≤ 3)
      × ((u ≡ uuid_of (answer asked))
          × ((if leb 1 i && ltb i asked then uuid_of (answer i) else none) ≡ none))
unfolding read_uuid_with_retry read_attempts
read_uuid_with_retry_bound q answer i = ground arith

all_hex : Bytes → Bool
all_hex [] = true
all_hex (c ∷ s) = is_hex_digit c && all_hex s

all_hex-clean : (s : Bytes) → all_hex (clean s) ≡ true
unfolding all_hex clean
all_hex-clean [] = refl
all_hex-clean (c ∷ s) = elim (Bool-cases (is_hex_digit c)) [
  | inl e ↦ rw (e, clean) (ground (arith, e, all_hex-clean s))
  | inr e ↦ rw (e, clean) (all_hex-clean s)
]

hex_value-digit :
    (c v : ℕ) → hex_value c ≡ some v → (v < 16) × ((to_lower c == to_lower (upper_digit v)) ≡ true)
unfolding hex_value
hex_value-digit c v h = (ground (arith, h), ground (arith, h))

not_plus : (a : ℕ) → is_hex_digit a ≡ true → (a == b'+') ≡ false
not_plus a d = ground arith

two_digits :
    (a b n : ℕ)
    → is_hex_digit a ≡ true
    → u8_from_hex (a ∷ b ∷ []) ≡ some n
    → (x : ℕ) × (y : ℕ) × (hex_value a ≡ some x) × ((hex_value b ≡ some y) × (n ≡ x * 16 + y))
unfolding u8_from_hex hex_digits
two_digits a b n d h = elim (Option-cases (hex_value a)) [
  | inl e ↦ absurd (ground (arith, e, not_plus a d, h))
  | inr (x, e) ↦ elim (Option-cases (hex_value b)) [
    | inl f ↦ absurd (ground (arith, e, f, not_plus a d, h))
    | inr (y, f) ↦ (x, y, e, (f, ground (arith, e, f, not_plus a d, h)))
  ]
]

pair-digits :
    (a b n : ℕ)
    → is_hex_digit a ≡ true
    → u8_from_hex (a ∷ b ∷ []) ≡ some n
    → ((to_lower a == to_lower (upper_digit (n / 16))) ≡ true)
      × ((to_lower b == to_lower (upper_digit (n % 16))) ≡ true)
pair-digits a b n d h =
    let (x, y, e, (f, k)) = two_digits a b n d h in
    let (lx, ex) = hex_value-digit a x e in
    let (ly, ey) = hex_value-digit b y f in
    let hi : n / 16 ≡ x = omega (arith, k, lx, ly) in
    let lo : n % 16 ≡ y = omega (arith, k, lx, ly) in (rw hi ex, rw lo ey)

some-injective : {A : Type 0} {a b : A} → ◌≡◌ {A = Option A} (some a) (some b) → a ≡ b
some-injective h = cc

bytes_of_pairs-eq :
    (s u : Bytes)
    → all_hex s ≡ true
    → bytes_of_pairs s ≡ some u
    → eq_ignore_case s (uuid_hex u) ≡ true
unfolding bytes_of_pairs all_hex eq_ignore_case uuid_hex
bytes_of_pairs-eq [] u a h =
    subst (λ w. eq_ignore_case [] (uuid_hex w) ≡ true) (some-injective h) refl
bytes_of_pairs-eq (x ∷ []) u a h = cc
bytes_of_pairs-eq (x ∷ y ∷ s) u a h = elim (Option-cases (u8_from_hex (x ∷ y ∷ []))) [
  | inl e ↦ absurd (ground (arith, e, h))
  | inr (n, e) ↦ elim (Option-cases (bytes_of_pairs s)) [
    | inl f ↦ absurd (ground (arith, e, f, h))
    | inr (v, f) ↦
        let k : ◌≡◌ {A = Option Bytes} (some (n ∷ v)) (some u) = ground (arith, e, f, h) in
        let (p, q) = pair-digits x y n (ground (arith, a)) e in
        subst (λ w. eq_ignore_case (x ∷ y ∷ s) (uuid_hex w) ≡ true) (some-injective k)
          (ground (arith, p, q, bytes_of_pairs-eq s v (ground (arith, a)) f))
  ]
]

-- A UUID that is read from a serial number matches that serial number, so the search for the device
-- that is to be written finds it again.
pub serial_matches-uuid_from_usb_serial :
    (serial u : Bytes)
    → uuid_from_usb_serial (some serial) ≡ some u
    → serial_matches u serial ≡ true
unfolding uuid_from_usb_serial serial_matches
serial_matches-uuid_from_usb_serial serial u h = elim (Bool-cases (length (clean serial) == 12)) [
  | inl e ↦ bytes_of_pairs-eq (clean serial) u (all_hex-clean serial) (ground (arith, e, h))
  | inr e ↦ absurd (ground (arith, e, h))
]
