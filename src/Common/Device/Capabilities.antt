-- ===== src/Common/Device/Capabilities.antt =====
-- The capability bits behave as a set of the three flags.
use odyssey_desktop.Prelude.{
  ℕ, ◌<◌, ◌≡◌, refl, ◌⊎◌, Bool, true, not, ◌&&◌, ◌||◌, arith, ◌==◌, all_below, all_below_lem, same,
  ltb, same→eq,
}
use odyssey_desktop.Common.Device.{
  DeviceCapabilities, contains, insert, remove, control, events, dfu,
}

-- `CONTROL`, `EVENTS` or `DFU`.
abbrev pub IsFlag : ℕ → Type 0
IsFlag f = (f ≡ control) ⊎ ((f ≡ events) ⊎ (f ≡ dfu))

for_flags : (ℕ → Bool) → Bool
for_flags p = p control && p events && p dfu

for_flags_lem : (p : ℕ → Bool) (f : ℕ) → for_flags p ≡ true → IsFlag f → p f ≡ true
unfolding for_flags
for_flags_lem p f h i = ground arith

abbrev caps : ℕ → DeviceCapabilities
caps b = record { bits = b }

abbrev insert_row : ℕ → ℕ → ℕ → Bool
insert_row b f g = same (contains (insert (caps b) f) g) (f == g || contains (caps b) g)

abbrev remove_row : ℕ → ℕ → ℕ → Bool
remove_row b f g = same (contains (remove (caps b) f) g) (not (f == g) && contains (caps b) g)

insert_table : all_below 256 (λ b. for_flags (λ f. for_flags (insert_row b f))) ≡ true
unfolding all_below for_flags contains insert
insert_table = refl

remove_table : all_below 256 (λ b. for_flags (λ f. for_flags (remove_row b f))) ≡ true
unfolding all_below for_flags contains remove
remove_table = refl

-- After `insert(f)` exactly `f` and the flags that were there are contained, and after `remove(f)`
-- exactly the flags that were there other than `f`, for the three flags of the type and any byte.
pub contains-insert-remove :
    (c : DeviceCapabilities) (f g : ℕ)
    → c.bits < 256
    → IsFlag f
    → IsFlag g
    → (contains (insert c f) g ≡ (f == g || contains c g))
      × (contains (remove c f) g ≡ (not (f == g) && contains c g))
contains-insert-remove c f g h i j = (
  same→eq _ _ (
      for_flags_lem (insert_row c.bits f) g
        (for_flags_lem (λ f. for_flags (insert_row c.bits f)) f
          (all_below_lem 256 _ c.bits insert_table h) i)
        j),
  same→eq _ _ (
      for_flags_lem (remove_row c.bits f) g
        (for_flags_lem (λ f. for_flags (remove_row c.bits f)) f
          (all_below_lem 256 _ c.bits remove_table h) i)
        j),
)

abbrev byte_row : ℕ → ℕ → Bool
byte_row b f = ltb (insert (caps b) f).bits 256 && ltb (remove (caps b) f).bits 256

byte_table : all_below 256 (λ b. for_flags (byte_row b)) ≡ true
unfolding all_below for_flags insert remove
byte_table = refl

-- The bits stay within a byte.
pub insert-remove-bound :
    (c : DeviceCapabilities) (f : ℕ)
    → c.bits < 256
    → IsFlag f
    → ((insert c f).bits < 256) × ((remove c f).bits < 256)
insert-remove-bound c f h i =
    let e =
      for_flags_lem (byte_row c.bits) f
        (all_below_lem 256 (λ b. for_flags (byte_row b)) c.bits byte_table h) i in
    (ground (arith, e), ground (arith, e))
