-- ===== src/Common/HexKeyMap/WellFormed.antt =====
-- Whatever the entries are, a map that is returned has proper keys.
use odyssey_desktop.Prelude.{
  ℕ, zero, suc, ◌+◌, ◌*◌, ◌<◌, ◌≡◌, refl, sym, ap, subst, ◌∙◌, none, some, List, [], ◌∷◌, arith,
  Bytes, bytes_eq, bytes_eq_iff, bytes_inst, ◌==◌, length, set, replicate, length-set,
  length-replicate, All, Outcome, done, Result, ok, err, slice, strip_0x, u8_from_hex, hex_digits,
  hex_value, Bool-cases, Option-cases, >>=-eq-done, done-injective, ok-injective, inl, inr,
}
use odyssey_desktop.Prelude.Assoc.{Map, insert, lookup, lookup-insert}
use odyssey_desktop.Common.HexKeyMap.{read_bytes, parse_key, visit_entries, deserialize, VisitError}
use odyssey_desktop.Common.HexKeyMap.RoundTrip.{IsByte, IsKeyMap}

hex_digits_bound : (s : Bytes) (acc v : ℕ) → acc < 256 → hex_digits acc s ≡ some v → v < 256
unfolding hex_digits
hex_digits_bound [] acc v h e = ground arith
hex_digits_bound (c ∷ s) acc v h e = elim (Option-cases (hex_value c)) [
  | inl n ↦ ground (arith, n)
  | inr (d, n) ↦ ground (arith, n, hex_digits_bound s (acc * 16 + d) v)
]

u8_from_hex_bound : (s : Bytes) (v : ℕ) → u8_from_hex s ≡ some v → IsByte v
unfolding u8_from_hex
u8_from_hex_bound [] v e = cc
u8_from_hex_bound (c ∷ []) v e = hex_digits_bound (c ∷ []) 0 v (omega arith) e
u8_from_hex_bound (c ∷ d ∷ s) v e = elim (Bool-cases (c == b'+')) [
  | inl p ↦ hex_digits_bound (d ∷ s) 0 v (omega arith) (ground (arith, e))
  | inr p ↦ hex_digits_bound (c ∷ d ∷ s) 0 v (omega arith) (ground (arith, e))
]

All-set : (xs : Bytes) (i v : ℕ) → IsByte v → All IsByte xs → All IsByte (set xs i v)
All-set [] i v h a = tt
All-set (x ∷ xs) zero v h a = (h, a.1)
All-set (x ∷ xs) (suc i) v h a = (a.0, All-set xs i v h a.1)

All-zeros : (n : ℕ) → All IsByte (replicate n 0)
All-zeros zero = tt
All-zeros (suc n) = (omega arith, All-zeros n)

module _ {E : Type 0} (N : ℕ) where
  read_bytes-IsByte :
      (s : Bytes) (k i : ℕ) (arr : Bytes) {r : Bytes}
      → All IsByte arr
      → read_bytes {E = E} N s k i arr ≡ done (ok r)
      → All IsByte r × (length r ≡ length arr)
  unfolding read_bytes
  read_bytes-IsByte s zero i arr a e =
      let p = ok-injective (done-injective e) in (subst (All IsByte) p a, ap length (sym p))
  read_bytes-IsByte s (suc k) i arr a e =
      let (x, p, q) = >>=-eq-done (slice s (2 * i) (2 * i + 2)) _ e in
      elim (Option-cases (u8_from_hex x)) [
        | inl n ↦ absurd (ground (arith, n, q))
        | inr (v, n) ↦
            let (b, l) =
              read_bytes-IsByte s k (i + 1) (set arr i v)
                (All-set arr i v (u8_from_hex_bound x v n) a) (ground (arith, n, q)) in
            (b, l ∙ length-set arr i v)
      ]

  parse_key-IsByte :
      (key : Bytes) {r : Bytes}
      → parse_key {E = E} N key ≡ done (ok r)
      → (length r ≡ N) × All IsByte r
  unfolding parse_key
  parse_key-IsByte key e = elim (Option-cases (strip_0x key)) [
    | inl n ↦ absurd (ground (arith, n, e))
    | inr (s, n) ↦ elim (Bool-cases (length s == 2 * N)) [
      | inl t ↦
          let (b, l) =
            read_bytes-IsByte s N 0 (replicate N 0) (All-zeros N) (ground (arith, n, t, e)) in
          (l ∙ length-replicate N 0, b)
      | inr f ↦ absurd (ground (arith, n, f, e))
    ]
  ]

pub insert-IsKeyMap :
    {T : Type 0} (N : ℕ) (k : Bytes) (v : T) (m : Map Bytes T)
    → length k ≡ N
    → All IsByte k
    → IsKeyMap N m
    → IsKeyMap N (insert k v m)
unfolding insert lookup
insert-IsKeyMap N k v [] l b h = (l, b, refl, tt)
insert-IsKeyMap N k v ((j, w) ∷ m) l b h = elim (Bool-cases (bytes_eq j k)) [
  | inl e ↦ let p = (bytes_eq_iff j k).0 e in rw e (l, b, subst (λ x. lookup x m ≡ none) p h.2, h.3)
  | inr e ↦ rw e (
    h.0,
    h.1,
    lookup-insert k j v m ∙ ground (arith, e, h.2, bytes_eq_iff j k, bytes_eq_iff k j),
    insert-IsKeyMap N k v m l b h.3,
  )
]

module _ {E : Type 0} (N : ℕ) {T : Type 0} where
  visit_entries-IsKeyMap :
      (entries : List (Result (Bytes × T) E)) (values : Map Bytes T) {m : Map Bytes T}
      → IsKeyMap N values
      → visit_entries N entries values ≡ done (ok m)
      → IsKeyMap N m
  unfolding visit_entries
  visit_entries-IsKeyMap [] values h e = subst (IsKeyMap N) (ok-injective (done-injective e)) h
  visit_entries-IsKeyMap (err x ∷ entries) values h e = absurd (ground (arith, e))
  visit_entries-IsKeyMap (ok (key, value) ∷ entries) values {m} h e =
      let (r, p, q) = >>=-eq-done (parse_key N key) _ e in
      go r p q (λ vs. visit_entries-IsKeyMap entries vs {m = m})
    where
      go :
          (r : Result Bytes (VisitError E))
          → parse_key N key ≡ done r
          → elim r as (λ x. Outcome (Result (Map Bytes T) (VisitError E))) [
            | err e ↦ done (err e)
            | ok arr ↦ visit_entries N entries (insert arr value values)
          ]
            ≡ done (ok m)
          → ((vs : Map Bytes T)
              → IsKeyMap N vs
              → visit_entries N entries vs ≡ done (ok m)
              → IsKeyMap N m)
          → IsKeyMap N m
      go (err x) p q ih = absurd (ground (arith, q))
      go (ok arr) p q ih =
          let (l, b) = parse_key-IsByte N key p in
          ih (insert arr value values) (insert-IsKeyMap N arr value values l b h) q

  -- A map that the visitor returns has keys of N bytes and no key twice, whatever the entries are.
  pub deserialize-IsKeyMap :
      (entries : List (Result (Bytes × T) E)) (m : Map Bytes T)
      → deserialize N entries ≡ done (ok m)
      → IsKeyMap N m
  unfolding deserialize
  deserialize-IsKeyMap entries m e = visit_entries-IsKeyMap entries [] tt e
