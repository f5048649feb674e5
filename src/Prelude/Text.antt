-- ===== src/Prelude/Text.antt =====
-- What the standard library does with a `&str`, as its UTF-8 bytes: slicing, prefixes, and hex digits.
use Prim.Native.Nat.{ℕ, zero, suc, ◌+◌, ◌-◌, ◌*◌, ◌≤◌, ◌<◌}
use mathlib.Core.Path.{◌≡◌, refl, ap}
use mathlib.Core.Bool.{Bool, true, false, ◌&&◌, not}
use mathlib.Core.Option.{Option, none, some}
use mathlib.Core.List.{[], ◌∷◌}
use mathlib.Core.Logic.{◌⊎◌, inl, inr}
use native.Mathlib.Omega.{arith}
use odyssey_desktop.Prelude.Tests.{ltb, leb, ◌==◌, if◌then◌else◌, le→leb}
use odyssey_desktop.Prelude.Lists.{length, get_elem?, take, drop, All}
use odyssey_desktop.Prelude.Classes.{Bytes}
use odyssey_desktop.Prelude.Fallible.{Outcome, done, panic}

-- A byte that continues a character.
abbrev pub is_tail : ℕ → Bool
is_tail b = leb 0x80 b && leb b 0xBF

-- `str::is_char_boundary`
unfoldable pub is_char_boundary : Bytes → ℕ → Bool
is_char_boundary s i =
    if i == 0
    then true
    else if i == length s
    then true
    else elim (get_elem? s i) [ none ↦ false | some b ↦ not (is_tail b) ]

-- `&s[a..b]` panics unless both ends are boundaries in order.
unfoldable pub slice : Bytes → ℕ → ℕ → Outcome Bytes
unfolding is_char_boundary
slice s a b =
    if leb a b && is_char_boundary s a && is_char_boundary s b
    then done (take (b - a) (drop a s))
    else panic

-- `strip_prefix("0x")`
unfoldable pub strip_0x : Bytes → Option Bytes
strip_0x [] = none
strip_0x (a ∷ []) = none
strip_0x (a ∷ b ∷ s) = if a == b'0' && b == b'x' then some s else none

-- `char::to_digit(16)`
unfoldable pub hex_value : ℕ → Option ℕ
hex_value c =
    if leb b'0' c && leb c b'9'
    then some (c - 48)
    else if leb b'a' c && leb c b'f'
    then some (c - 87)
    else if leb b'A' c && leb c b'F'
    then some (c - 55)
    else none

-- The digits of a `u8`, with its overflow check.
unfoldable pub hex_digits : ℕ → Bytes → Option ℕ
unfolding hex_value
hex_digits acc [] = some acc
hex_digits acc (c ∷ s) = elim (hex_value c) [
  | none ↦ none
  | some v ↦ let n = acc * 16 + v in let rest = hex_digits n s in if ltb n 256 then rest else none
]

-- `u8::from_str_radix(s, 16)`: one leading `+` is accepted, and no `-`.
unfoldable pub u8_from_hex : Bytes → Option ℕ
unfolding hex_digits
u8_from_hex [] = none
u8_from_hex (c ∷ []) = hex_digits 0 (c ∷ [])
u8_from_hex (c ∷ d ∷ s) = if c == b'+' then hex_digits 0 (d ∷ s) else hex_digits 0 (c ∷ d ∷ s)

-- The digits of `{:02x}` and `{:02X}`.
abbrev pub lower_digit : ℕ → ℕ
lower_digit n = if ltb n 10 then 48 + n else 87 + n

abbrev pub upper_digit : ℕ → ℕ
upper_digit n = if ltb n 10 then 48 + n else 55 + n

ascii_at :
    (t : Bytes) (j : ℕ)
    → All (λ b. b < 0x80) t
    → j ≤ length t
    → (j ≡ length t) ⊎ ((b : ℕ) × (get_elem? t j ≡ some b) × (b < 0x80))
ascii_at [] zero a le = inl refl
ascii_at [] (suc j) a le = absurd (omega arith)
ascii_at (c ∷ t) zero a le = inr (c, refl, a.0)
ascii_at (c ∷ t) (suc j) a le = elim (ascii_at t j a.1 (omega arith)) [
  | inl e ↦ inl (ap suc e)
  | inr x ↦ inr x
]

-- Every position of an ASCII text is a boundary.
pub is_char_boundary-ascii :
    (s : Bytes) (i : ℕ) → All (λ b. b < 0x80) s → i ≤ length s → is_char_boundary s i ≡ true
unfolding is_char_boundary
is_char_boundary-ascii s i h le = ground (arith, ascii_at s i h le)

pub slice-ascii :
    (s : Bytes) (a b : ℕ)
    → All (λ x. x < 0x80) s
    → a ≤ b
    → b ≤ length s
    → slice s a b ≡ done (take (b - a) (drop a s))
unfolding slice
slice-ascii s a b h le within =
    rw (
      le→leb a b le,
      is_char_boundary-ascii s a h (omega arith),
      is_char_boundary-ascii s b h within,
    )
