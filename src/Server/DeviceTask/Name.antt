-- ===== src/Server/DeviceTask/Name.antt =====
-- The name that is sent to a device over the packet protocol or to the dongle: as many whole
-- characters as a `heapless::String<32>` takes. A `&str` is its UTF-8 bytes.
pub mod Bounds
use odyssey_desktop.Prelude.{
  ℕ, ◌-◌, List, [], ◌∷◌, ◌++◌, Bytes, is_tail, length, if◌then◌else◌, leb,
}

-- `b` in front of a text that is cut into characters.
unfoldable join_byte : ℕ → List Bytes → List Bytes
join_byte b [] = (b ∷ []) ∷ []
join_byte b ([] ∷ cs) = (b ∷ []) ∷ cs
join_byte b ((c ∷ bs) ∷ cs) = if is_tail c then (b ∷ c ∷ bs) ∷ cs else (b ∷ []) ∷ (c ∷ bs) ∷ cs

-- `name.chars()`
unfoldable pub chars : Bytes → List Bytes
unfolding join_byte
chars [] = []
chars (b ∷ bs) = join_byte b (chars bs)

-- `for c in chars { if push(c).is_err() { break; } }` with room for `room` bytes.
unfoldable pub push_chars : ℕ → List Bytes → Bytes
push_chars room [] = []
push_chars room (c ∷ cs) =
    let rest = push_chars (room - length c) cs in if leb (length c) room then c ++ rest else []

unfoldable pub heapless_name : Bytes → Bytes
unfolding chars push_chars
heapless_name name = push_chars 32 (chars name)
