-- ===== src/Common/HexKeyMap/Pairs.antt =====
-- What the visitor makes of any key: its loop over indices reads the key two bytes at a time.
use mathlib.Core.List.{append_assoc}
use odyssey_desktop.Prelude.{
  ℕ, zero, suc, ◌+◌, ◌-◌, ◌*◌, ◌<◌, ◌≡◌, refl, sym, ap, ap₂, ◌∙◌, Bool, true, false, not, none,
  some, [], ◌∷◌, ◌++◌, arith, Bytes, ◌==◌, if◌then◌else◌, length, replicate, take, drop, get_elem?,
  Outcome, done, panic, Result, ok, err, slice, is_char_boundary, is_tail, u8_from_hex, strip_0x,
  length-append, drop-append, Bool-cases, Option-cases, inl, inr, ==_iff,
}
use odyssey_desktop.Common.HexKeyMap.{
  VisitError, missing_prefix, wrong_length, invalid_byte, read_bytes, parse_key,
}
use odyssey_desktop.Common.HexKeyMap.RoundTrip.{set-append, read_bytes_step}

-- Whether a text begins with a whole character, or is empty.
abbrev pub begins_whole : Bytes → Bool
begins_whole [] = true
begins_whole (b ∷ s) = not (is_tail b)

abbrev pub Parsed : Type 0 → Type 0
Parsed E = Outcome (Result Bytes (VisitError E))

module _ {E : Type 0} where
  -- What was read, behind the bytes `bs`.
  abbrev pub behind : Bytes → Parsed E → Parsed E
  behind bs panic = panic
  behind bs (done (err e)) = done (err e)
  behind bs (done (ok r)) = done (ok (bs ++ r))

  -- Two bytes that end inside a character are a panic; else they must be the digits of a byte.
  unfoldable pub read_pairs : Bytes → Parsed E
  read_pairs [] = done (ok [])
  read_pairs (x ∷ []) = panic
  read_pairs (x ∷ y ∷ s) =
      let rest = read_pairs s in
      if begins_whole s
      then elim (u8_from_hex (x ∷ y ∷ [])) [
        | none ↦ done (err (invalid_byte (x ∷ y ∷ [])))
        | some v ↦ behind (v ∷ []) rest
      ]
      else panic

  unfoldable pub key_by_pairs : ℕ → Bytes → Parsed E
  unfolding read_pairs
  key_by_pairs N key = elim (strip_0x key) [
    | none ↦ done (err (missing_prefix key))
    | some s ↦ if length s == 2 * N then read_pairs s else done (err (wrong_length (length s) key))
  ]

  pub read_pairs_cut :
      (x y : ℕ) (s : Bytes) → begins_whole s ≡ false → read_pairs (x ∷ y ∷ s) ≡ panic
  unfolding read_pairs
  read_pairs_cut x y s w = rw w refl

  read_pairs_bad :
      (x y : ℕ) (s : Bytes)
      → begins_whole s ≡ true
      → u8_from_hex (x ∷ y ∷ []) ≡ none
      → read_pairs (x ∷ y ∷ s) ≡ done (err (invalid_byte (x ∷ y ∷ [])))
  unfolding read_pairs
  read_pairs_bad x y s w n = rw (w, read_pairs) (rw (n, read_pairs) refl)

  pub read_pairs_step :
      (x y : ℕ) (s : Bytes) (v : ℕ)
      → begins_whole s ≡ true
      → u8_from_hex (x ∷ y ∷ []) ≡ some v
      → read_pairs (x ∷ y ∷ s) ≡ behind (v ∷ []) (read_pairs s)
  unfolding read_pairs
  read_pairs_step x y s v w n = rw (w, read_pairs) (rw (n, read_pairs) refl)

  behind-behind : (a b : Bytes) (r : Parsed E) → behind a (behind b r) ≡ behind (a ++ b) r
  behind-behind a b panic = refl
  behind-behind a b (done (err e)) = refl
  behind-behind a b (done (ok r)) = ap (λ l. done (ok l)) (sym (append_assoc a b r))

  behind-nil : (r : Parsed E) → behind [] r ≡ r
  behind-nil panic = refl
  behind-nil (done (err e)) = refl
  behind-nil (done (ok r)) = refl

get_elem?-append : (p q : Bytes) → get_elem? (p ++ q) (length p) ≡ get_elem? q 0
get_elem?-append [] q = refl
get_elem?-append (x ∷ p) q = get_elem?-append p q

boundary-append :
    (p q : Bytes) → 0 < length p → is_char_boundary (p ++ q) (length p) ≡ begins_whole q
unfolding is_char_boundary
boundary-append p [] h = ground (arith, h, length-append p [], get_elem?-append p [])
boundary-append p (b ∷ q) h = ground (arith, h, length-append p (b ∷ q), get_elem?-append p (b ∷ q))

-- The slice of two bytes behind `p`.
slice_pair :
    (p : Bytes) (x y : ℕ) (q : Bytes)
    → is_char_boundary (p ++ x ∷ y ∷ q) (length p) ≡ true
    → slice (p ++ x ∷ y ∷ q) (length p) (length p + 2)
      ≡ (if begins_whole q then done (x ∷ y ∷ []) else panic)
unfolding slice
slice_pair p x y q h =
    let e : is_char_boundary (p ++ x ∷ y ∷ q) (length p + 2) ≡ begins_whole q =
      ap₂ is_char_boundary (sym (append_assoc p (x ∷ y ∷ []) q))
        (sym (length-append p (x ∷ y ∷ [])))
      ∙ boundary-append (p ++ x ∷ y ∷ []) q (omega (arith, length-append p (x ∷ y ∷ []))) in
    let t : take (length p + 2 - length p) (drop (length p) (p ++ x ∷ y ∷ q)) ≡ x ∷ y ∷ [] =
      ap₂ take (let two : length p + 2 - length p ≡ 2 = omega arith in two)
        (drop-append p (x ∷ y ∷ q)) in
    rw h (rw e (ground (arith, t)))

module _ {E : Type 0} (N : ℕ) where
  read_bytes_cut :
      (s : Bytes) (k i : ℕ) (arr : Bytes)
      → slice s (2 * i) (2 * i + 2) ≡ panic
      → read_bytes {E = E} N s (suc k) i arr ≡ panic
  unfolding read_bytes
  read_bytes_cut s k i arr e = ground (arith, e)

  read_bytes_bad :
      (s : Bytes) (k i : ℕ) (arr : Bytes) {x : Bytes}
      → slice s (2 * i) (2 * i + 2) ≡ done x
      → u8_from_hex x ≡ none
      → read_bytes {E = E} N s (suc k) i arr ≡ done (err (invalid_byte x))
  unfolding read_bytes
  read_bytes_bad s k i arr e f = ground (arith, e, f)

  -- The loop, with the bytes `a` read from the text `p`.
  read_bytes_pairs :
      (k : ℕ) (p q a : Bytes)
      → length p ≡ 2 * length a
      → length q ≡ 2 * k
      → is_char_boundary (p ++ q) (length p) ≡ true
      → read_bytes {E = E} N (p ++ q) k (length a) (a ++ replicate k 0) ≡ behind a (read_pairs q)
  unfolding read_bytes read_pairs
  read_bytes_pairs zero p [] a l m b = refl
  read_bytes_pairs zero p (x ∷ q) a l m b = absurd (omega (arith, m))
  read_bytes_pairs (suc k) p [] a l m b = absurd (omega (arith, m))
  read_bytes_pairs (suc k) p (x ∷ []) a l m b = absurd (omega (arith, m))
  read_bytes_pairs (suc k) p (x ∷ y ∷ q) a l m b =
      let cut : slice (p ++ x ∷ y ∷ q) (2 * length a) (2 * length a + 2)
          ≡ (if begins_whole q then done (x ∷ y ∷ []) else panic) =
        ap (λ n. slice (p ++ x ∷ y ∷ q) n (n + 2)) (sym l) ∙ slice_pair p x y q b in
      elim (Bool-cases (begins_whole q)) [
        | inr w ↦
            read_bytes_cut (p ++ x ∷ y ∷ q) k (length a) _ (cut ∙ rw w refl)
            ∙ sym (ap (behind a) (read_pairs_cut x y q w))
        | inl w ↦
            let whole : slice (p ++ x ∷ y ∷ q) (2 * length a) (2 * length a + 2)
                ≡ done (x ∷ y ∷ []) =
              cut ∙ rw w refl in
            elim (Option-cases (u8_from_hex (x ∷ y ∷ []))) [
              | inl n ↦
                  read_bytes_bad (p ++ x ∷ y ∷ q) k (length a) _ whole n
                  ∙ sym (ap (behind a) (read_pairs_bad x y q w n))
              | inr (v, n) ↦
                  let step =
                    read_bytes_pairs k (p ++ x ∷ y ∷ []) q (a ++ v ∷ [])
                      (omega (arith, l, length-append p (x ∷ y ∷ []), length-append a (v ∷ [])))
                      (omega (arith, m))
                      (boundary-append (p ++ x ∷ y ∷ []) q
                          (omega (arith, length-append p (x ∷ y ∷ [])))
                        ∙ w) in
                  read_bytes_step N (p ++ x ∷ y ∷ q) k (length a) _ whole n
                  ∙ cc (
                    append_assoc p (x ∷ y ∷ []) q,
                    length-append a (v ∷ []),
                    set-append a (replicate k 0) 0 v,
                    step,
                    behind-behind a (v ∷ []) (read_pairs {E = E} q),
                    read_pairs_step {E = E} x y q v w n,
                  )
            ]
      ]

  -- Whatever a key is: the visitor gives the error of a missing prefix or of a wrong length, or else
  -- reads the key as the bytes of its N pairs of digits, in their order, up to the first pair that
  -- ends inside a character, which is a panic, or is no byte, which is the error of that pair.
  pub parse_key-key_by_pairs : (key : Bytes) → parse_key {E = E} N key ≡ key_by_pairs N key
  unfolding parse_key key_by_pairs is_char_boundary
  parse_key-key_by_pairs key = elim (Option-cases (strip_0x key)) [
    | inl n ↦ rw (n, parse_key, key_by_pairs) refl
    | inr (s, n) ↦ elim (Bool-cases (length s == 2 * N)) [
      | inr f ↦ rw (n, parse_key, key_by_pairs) (rw f refl)
      | inl t ↦
          rw (n, parse_key, key_by_pairs)
            (rw t (
              read_bytes_pairs N [] s [] (omega arith) ((==_iff (length s) (2 * N)).0 t) refl
              ∙ behind-nil (read_pairs s)))
    ]
  ]
