-- ===== src/Server/Firmware/Manifest/Order.antt =====
-- `version_newer` and `versions_compatible` as an order and a relation on version numbers.
use odyssey_desktop.Prelude.{
  ℕ, ◌+◌, ◌*◌, ◌^◌, ◌<◌, ◌≡◌, ◌≢◌, ◌↔◌, ◌⊎◌, true, some, [], ◌∷◌, arith, Bytes, Bool-cases, inl,
  inr, ◌-◌, ◌==◌,
}
use odyssey_desktop.Common.Device.{Version}
use odyssey_desktop.Server.Firmware.Manifest.{
  decimal_digits, parse_u16, versions_compatible, version_newer,
}

pub record IsU16 (v : Version) : Type 0 where
  pub major : v.major < 2 ^ 16
  pub minor : v.minor < 2 ^ 16
  pub patch : v.patch < 2 ^ 16

-- The three numbers as one of 48 bits.
abbrev pub rank : Version → ℕ
rank v = v.major * 2 ^ 32 + v.minor * 2 ^ 16 + v.patch

-- The same major version and, if that is 0, the same minor version.
abbrev pub Compatible : Version → Version → Type 0
Compatible d m = (d.major ≡ m.major) × ((d.major ≢ 0) ⊎ (d.minor ≡ m.minor))

-- `version_newer` is the order of the version numbers read as one number of 48 bits, and
-- `versions_compatible` means the same major version and, if that is 0, the same minor version.
pub newer_iff-rank :
    (d m : Version)
    → IsU16 d
    → IsU16 m
    → ((version_newer d m ≡ true) ↔ (rank d < rank m))
      × ((versions_compatible d m ≡ true) ↔ Compatible d m)
unfolding version_newer versions_compatible
newer_iff-rank d m u v =
    (ground (arith, u.major, u.minor, u.patch, v.major, v.minor, v.patch), ground arith)

decimal_digits_bound :
    (acc : ℕ) (s : Bytes) (v : ℕ) → acc < 2 ^ 16 → decimal_digits acc s ≡ some v → v < 2 ^ 16
unfolding decimal_digits
decimal_digits_bound acc [] v h e = ground (arith, h, e)
decimal_digits_bound acc (c ∷ s) v h e =
    ground (arith, e, decimal_digits_bound (acc * 10 + (c - 48)) s v)

pub parse_u16_bound : (s : Bytes) (v : ℕ) → parse_u16 s ≡ some v → v < 2 ^ 16
unfolding parse_u16
parse_u16_bound [] v e = ground (arith, e)
parse_u16_bound (c ∷ []) v e = decimal_digits_bound 0 (c ∷ []) v (omega arith) e
parse_u16_bound (c ∷ d ∷ s) v e = elim (Bool-cases (c == b'+')) [
  | inl p ↦ decimal_digits_bound 0 (d ∷ s) v (omega arith) (ground (arith, e))
  | inr p ↦ decimal_digits_bound 0 (c ∷ d ∷ s) v (omega arith) (ground (arith, e))
]
