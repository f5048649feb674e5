-- ===== src/Common/HexKeyMap/RoundTrip.antt =====
-- Reading back what `serialize` wrote.
use mathlib.Core.List.{append-nil, append_assoc}
use odyssey_desktop.Prelude.{
  ℕ, suc, ◌+◌, ◌-◌, ◌*◌, ◌<◌, ◌≡◌, refl, sym, ap, subst, ap₂, ◌∙◌, Bool, true, false, none, some,
  [], ◌∷◌, ◌++◌, map, arith, Bytes, bytes_eq, bytes_eq_iff, bytes_inst, ◌==◌, length, set,
  replicate, take, drop, All, done, ok, slice, slice-ascii, u8_from_hex, all_below, all_below_lem,
  All-append_right, strip_0x, length-append, drop-append, ==_iff, Bool-cases, inl, inr,
}
use odyssey_desktop.Prelude.Assoc.{Map, insert, lookup}
use odyssey_desktop.Common.HexKeyMap.{
  hex_byte, hex_bytes, key_str, serialize, read_bytes, parse_key, visit_entries, deserialize,
}

abbrev pub IsByte : ℕ → Type 0
IsByte b = b < 256

reads_back : ℕ → Bool
reads_back b = elim (u8_from_hex (hex_byte b)) [ none ↦ false | some v ↦ v == b ]

reads_back_table : all_below 256 reads_back ≡ true
unfolding all_below reads_back u8_from_hex hex_byte
reads_back_table = refl

pub u8_from_hex-hex_byte : (b : ℕ) → IsByte b → u8_from_hex (hex_byte b) ≡ some b
unfolding reads_back
u8_from_hex-hex_byte b h = ground (arith, all_below_lem 256 reads_back b reads_back_table h)

hex_bytes-ascii : (bs : Bytes) → All IsByte bs → All (λ b. b < 0x80) (hex_bytes bs)
unfolding hex_bytes
hex_bytes-ascii [] h = tt
hex_bytes-ascii (b ∷ bs) h = (ground arith, (ground arith, hex_bytes-ascii bs h.1))

pub length-hex_bytes : (bs : Bytes) → length (hex_bytes bs) ≡ 2 * length bs
unfolding hex_bytes
length-hex_bytes [] = omega arith
length-hex_bytes (b ∷ bs) = omega (arith, length-hex_bytes bs)

hex_bytes-append : (p q : Bytes) → hex_bytes (p ++ q) ≡ hex_bytes p ++ hex_bytes q
unfolding hex_bytes
hex_bytes-append [] q = refl
hex_bytes-append (b ∷ p) q = ap (λ l. hex_byte b ++ l) (hex_bytes-append p q)

-- The two digits of the byte behind `p`.
slice_at :
    (p rest : Bytes) (b : ℕ)
    → All IsByte (p ++ b ∷ rest)
    → slice (hex_bytes (p ++ b ∷ rest)) (2 * length p) (2 * length p + 2) ≡ done (hex_byte b)
unfolding hex_bytes
slice_at p rest b h =
    slice-ascii (hex_bytes (p ++ b ∷ rest)) (2 * length p) (2 * length p + 2) (hex_bytes-ascii _ h)
      (omega arith) (omega (arith, length-hex_bytes (p ++ b ∷ rest), length-append p (b ∷ rest)))
    ∙ ap done (ap₂ take (let e : 2 * length p + 2 - 2 * length p ≡ 2 = omega arith in e) split)
  where
    split : drop (2 * length p) (hex_bytes (p ++ b ∷ rest)) ≡ hex_byte b ++ hex_bytes rest
    split =
        ap₂ drop (sym (length-hex_bytes p)) (hex_bytes-append p (b ∷ rest))
        ∙ drop-append (hex_bytes p) (hex_byte b ++ hex_bytes rest)

pub set-append : (p zs : Bytes) (x v : ℕ) → set (p ++ x ∷ zs) (length p) v ≡ (p ++ v ∷ []) ++ zs
set-append [] zs x v = refl
set-append (y ∷ p) zs x v = ap (◌∷◌ y) (set-append p zs x v)

-- The keys of a map of `[u8; N]` keys: N bytes each, and no key twice.
abbrev pub IsKeyMap : {T : Type 0} → ℕ → Map Bytes T → Type 0
IsKeyMap N [] = Unit
IsKeyMap N ((k, v) ∷ m) = (length k ≡ N) × All IsByte k × (lookup k m ≡ none) × IsKeyMap N m

insert_fresh :
    {T : Type 0} (k : Bytes) (v : T) (m : Map Bytes T)
    → lookup k m ≡ none
    → insert k v m ≡ m ++ (k, v) ∷ []
unfolding insert lookup
insert_fresh k v [] h = refl
insert_fresh k v ((j, w) ∷ m) h = elim (Bool-cases (bytes_eq j k)) [
  | inl e ↦ ground (arith, h)
  | inr e ↦ rw e (ap (◌∷◌ (j, w)) (insert_fresh k v m (ground (arith, h))))
]

-- None of the keys of `m` is in `values`.
abbrev Fresh : {T : Type 0} → Map Bytes T → Map Bytes T → Type 0
Fresh values [] = Unit
Fresh values ((k, v) ∷ m) = (lookup k values ≡ none) × Fresh values m

Fresh-nil : {T : Type 0} (m : Map Bytes T) → Fresh [] m
unfolding lookup
Fresh-nil [] = tt
Fresh-nil ((k, v) ∷ m) = (refl, Fresh-nil m)

lookup-append :
    {T : Type 0} (k : Bytes) (m n : Map Bytes T)
    → lookup k m ≡ none
    → lookup k (m ++ n) ≡ lookup k n
unfolding lookup
lookup-append k [] n h = refl
lookup-append k ((j, w) ∷ m) n h = elim (Bool-cases (bytes_eq j k)) [
  | inl e ↦ ground (arith, h)
  | inr e ↦ rw e (lookup-append k m n (ground (arith, h)))
]

Fresh-snoc :
    {T : Type 0} (m values : Map Bytes T) (k : Bytes) (v : T)
    → Fresh values m
    → lookup k m ≡ none
    → Fresh (values ++ (k, v) ∷ []) m
unfolding lookup
Fresh-snoc [] values k v f h = tt
Fresh-snoc ((j, w) ∷ m) values k v f h = elim (Bool-cases (bytes_eq j k)) [
  | inl e ↦ ground (arith, h)
  | inr e ↦ (
    lookup-append j values ((k, v) ∷ []) f.0
        ∙ ground (arith, e, bytes_eq_iff j k, bytes_eq_iff k j),
    Fresh-snoc m values k v f.1 (ground (arith, h)),
  )
]

module _ {E : Type 0} (N : ℕ) where
  pub read_bytes_step :
      (s : Bytes) (k i : ℕ) (arr : Bytes) {x : Bytes} {v : ℕ}
      → slice s (2 * i) (2 * i + 2) ≡ done x
      → u8_from_hex x ≡ some v
      → read_bytes {E = E} N s (suc k) i arr ≡ read_bytes {E = E} N s k (i + 1) (set arr i v)
  unfolding read_bytes
  read_bytes_step s k i arr e f = ground arith

  read_bytes-hex_bytes :
      (p rest : Bytes)
      → All IsByte (p ++ rest)
      → read_bytes {E = E} N
          (hex_bytes (p ++ rest))
          (length rest)
          (length p)
          (p ++ replicate (length rest) 0)
        ≡ done (ok (p ++ rest))
  unfolding read_bytes
  read_bytes-hex_bytes p [] h = refl
  read_bytes-hex_bytes p (b ∷ rest) h =
      read_bytes_step (hex_bytes (p ++ b ∷ rest)) (length rest) (length p) _ (slice_at p rest b h)
        (u8_from_hex-hex_byte b (All-append_right IsByte p (b ∷ rest) h).0)
      ∙ cc (
        append_assoc p (b ∷ []) rest,
        length-append p (b ∷ []),
        set-append p (replicate (length rest) 0) 0 b,
        read_bytes-hex_bytes (p ++ b ∷ []) rest
            (subst (All IsByte) (sym (append_assoc p (b ∷ []) rest)) h),
      )

  parse_key-key_str :
      (bytes : Bytes)
      → length bytes ≡ N
      → All IsByte bytes
      → parse_key {E = E} N (key_str bytes) ≡ done (ok bytes)
  unfolding parse_key key_str strip_0x
  parse_key-key_str bytes len h =
      rw ((==_iff (length (hex_bytes bytes)) (2 * N)).1 (omega (arith, length-hex_bytes bytes)))
        (cc (read_bytes-hex_bytes [] bytes h, len))

  visit_entries-serialize :
      {T : Type 0} (m values : Map Bytes T)
      → IsKeyMap N m
      → Fresh values m
      → visit_entries {E = E} N (map ok (serialize m)) values ≡ done (ok (values ++ m))
  unfolding visit_entries serialize
  visit_entries-serialize [] values h f = ap (λ l. done (ok l)) (sym (append-nil values))
  visit_entries-serialize ((k, v) ∷ m) values h f = rw (parse_key-key_str k h.0 h.1) (
      ap (visit_entries N (map ok (serialize m))) (insert_fresh k v values f.0)
      ∙ visit_entries-serialize m (values ++ (k, v) ∷ []) h.3 (Fresh-snoc m values k v f.1 h.2)
      ∙ ap (λ l. done (ok l)) (append_assoc values ((k, v) ∷ []) m))

  -- What is written for a map of `[u8; N]` keys is read back as that map, entry by entry.
  pub deserialize-serialize :
      {T : Type 0} (m : Map Bytes T)
      → IsKeyMap N m
      → deserialize {E = E} N (map ok (serialize m)) ≡ done (ok m)
  unfolding deserialize
  deserialize-serialize m h = visit_entries-serialize m [] h (Fresh-nil m)
