-- ===== src/Server/Firmware/Usb/Search.antt =====
-- The search by UUID prefers the device of that serial number.
use odyssey_desktop.Prelude.{
  ℕ, ◌/◌, ◌%◌, ◌<◌, ◌≡◌, ◌⊎◌, inl, inr, refl, ap₂, true, false, none, some, List, [], ◌∷◌, arith,
  Bytes, All, Any, find?, Result, ok, err, Bool-cases, Option-cases, upper_digit, subst, sym,
}
use odyssey_desktop.Server.Firmware.Usb.{
  uuid_hex, clean, eq_ignore_case, to_lower, serial_matches, DfuError, has_ids, has_serial,
  with_ids, find_device_by_uuid, UsbApi, device_not_found,
}

digit-injective :
    (n m : ℕ) → n < 16 → m < 16 → to_lower (upper_digit n) ≡ to_lower (upper_digit m) → n ≡ m
digit-injective n m a b h = ground arith

-- A serial number does not match two UUIDs.
eq_ignore_case-uuid_hex :
    (s u v : Bytes)
    → All (λ b. b < 256) u
    → All (λ b. b < 256) v
    → eq_ignore_case s (uuid_hex u) ≡ true
    → eq_ignore_case s (uuid_hex v) ≡ true
    → u ≡ v
unfolding eq_ignore_case uuid_hex
eq_ignore_case-uuid_hex s [] [] a b h k = refl
eq_ignore_case-uuid_hex [] [] (y ∷ v) a b h k = ground arith
eq_ignore_case-uuid_hex [] (x ∷ u) v a b h k = ground arith
eq_ignore_case-uuid_hex (c ∷ s) [] (y ∷ v) a b h k = ground arith
eq_ignore_case-uuid_hex (c ∷ s) (x ∷ u) [] a b h k = ground arith
eq_ignore_case-uuid_hex (c ∷ []) (x ∷ u) (y ∷ v) a b h k = ground arith
eq_ignore_case-uuid_hex (c ∷ d ∷ s) (x ∷ u) (y ∷ v) a b h k =
    let p : x / 16 ≡ y / 16 =
      digit-injective (x / 16) (y / 16) (omega (arith, a.0)) (omega (arith, b.0))
        (ground (arith, h, k)) in
    let q : x % 16 ≡ y % 16 =
      digit-injective (x % 16) (y % 16) (omega arith) (omega arith) (ground (arith, h, k)) in
    ap₂ ◌∷◌ (omega (arith, p, q))
      (eq_ignore_case-uuid_hex s u v a.1 b.1 (ground (arith, h)) (ground (arith, k)))

-- A serial number matches at most one UUID.
pub serial_matches-injective :
    (s u v : Bytes)
    → All (λ b. b < 256) u
    → All (λ b. b < 256) v
    → serial_matches u s ≡ true
    → serial_matches v s ≡ true
    → u ≡ v
unfolding serial_matches
serial_matches-injective s u v = eq_ignore_case-uuid_hex (clean s) u v

-- What a search for a UUID may return, of the devices listed.
abbrev pub IsFound :
    {Info E : Type 0} → UsbApi Info → Bytes → ℕ → ℕ → List Info → Result Info (DfuError E) → Type 0
IsFound api uuid vid pid devs (err e) =
    (e ≡ device_not_found) × All (λ d. has_ids api vid pid d ≡ false) devs
IsFound api uuid vid pid devs (ok d) =
    Any (λ x. x ≡ d) devs
    × (has_ids api vid pid d ≡ true)
    × ((has_serial api uuid d ≡ true)
        ⊎ All (λ x. (has_ids api vid pid x ≡ false) ⊎ (has_serial api uuid x ≡ false)) devs)

module _ {Info : Type 0} (api : UsbApi Info) (uuid : Bytes) (vid pid : ℕ) where
  with_ids-none :
      (devs : List Info)
      → with_ids api vid pid devs ≡ []
      → All (λ d. has_ids api vid pid d ≡ false) devs
  unfolding with_ids
  with_ids-none [] h = tt
  with_ids-none (d ∷ devs) h = elim (Bool-cases (has_ids api vid pid d)) [
    | inl e ↦ absurd (ground (arith, e, h))
    | inr e ↦ (e, with_ids-none devs (ground (arith, e, h)))
  ]

  with_ids-some :
      (devs rest : List Info) (d : Info)
      → with_ids api vid pid devs ≡ d ∷ rest
      → Any (λ x. x ≡ d) devs × (has_ids api vid pid d ≡ true)
  unfolding with_ids
  with_ids-some [] rest d h = absurd (ground (arith, h))
  with_ids-some (x ∷ devs) rest d h = elim (Bool-cases (has_ids api vid pid x)) [
    | inl e ↦
        let q : x ≡ d = ground (arith, e, h) in
        (inl q, subst (λ y. has_ids api vid pid y ≡ true) q e)
    | inr e ↦ let (a, b) = with_ids-some devs rest d (ground (arith, e, h)) in (inr a, b)
  ]

  find-serial :
      (devs : List Info) (d : Info)
      → find? (has_serial api uuid) (with_ids api vid pid devs) ≡ some d
      → Any (λ x. x ≡ d) devs × (has_ids api vid pid d ≡ true) × (has_serial api uuid d ≡ true)
  unfolding with_ids
  find-serial [] d h = absurd (ground (arith, h))
  find-serial (x ∷ devs) d h = elim (Bool-cases (has_ids api vid pid x)) [
    | inl e ↦ elim (Bool-cases (has_serial api uuid x)) [
      | inl f ↦
          let q : x ≡ d = ground (arith, e, f, h) in
          (
            inl q,
            subst (λ y. has_ids api vid pid y ≡ true) q e,
            subst (λ y. has_serial api uuid y ≡ true) q f,
          )
      | inr f ↦ let (a, b, c) = find-serial devs d (ground (arith, e, f, h)) in (inr a, b, c)
    ]
    | inr e ↦ let (a, b, c) = find-serial devs d (ground (arith, e, h)) in (inr a, b, c)
  ]

  find-no_serial :
      (devs : List Info)
      → find? (has_serial api uuid) (with_ids api vid pid devs) ≡ none
      → All (λ x. (has_ids api vid pid x ≡ false) ⊎ (has_serial api uuid x ≡ false)) devs
  unfolding with_ids
  find-no_serial [] h = tt
  find-no_serial (x ∷ devs) h = elim (Bool-cases (has_ids api vid pid x)) [
    | inl e ↦ elim (Bool-cases (has_serial api uuid x)) [
      | inl f ↦ absurd (ground (arith, e, f, h))
      | inr f ↦ (inr f, find-no_serial devs (ground (arith, e, f, h)))
    ]
    | inr e ↦ (inl e, find-no_serial devs (ground (arith, e, h)))
  ]

  -- The search returns a listed device of the vendor and product, one whose serial number is the UUID
  -- if there is any such; it fails exactly if no device of the vendor and product is listed.
  pub find_device_by_uuid-IsFound :
      (E : Type 0) (devs : List Info)
      → IsFound {E = E} api uuid vid pid devs (find_device_by_uuid api uuid (ok devs) vid pid)
  unfolding find_device_by_uuid
  find_device_by_uuid-IsFound E devs =
      elim (Option-cases (find? (has_serial api uuid) (with_ids api vid pid devs))) [
        | inr (d, n) ↦
            here (ok d) (rw (n, find_device_by_uuid) refl)
              (let (a, b, c) = find-serial devs d n in (a, b, inl c))
        | inl n ↦
            here
              (elim (with_ids api vid pid devs) [ [] ↦ err device_not_found | dev ∷ rest ↦ ok dev ])
              (rw (n, find_device_by_uuid) refl)
              (first (with_ids api vid pid devs) refl (find-no_serial devs n))
      ]
    where
      here :
          (r : Result Info (DfuError E))
          → find_device_by_uuid api uuid (ok devs) vid pid ≡ r
          → IsFound {E = E} api uuid vid pid devs r
          → IsFound {E = E} api uuid vid pid devs (find_device_by_uuid api uuid (ok devs) vid pid)
      here r q f = subst (IsFound {E = E} api uuid vid pid devs) (sym q) f

      first :
          (l : List Info)
          → with_ids api vid pid devs ≡ l
          → All (λ x. (has_ids api vid pid x ≡ false) ⊎ (has_serial api uuid x ≡ false)) devs
          → IsFound {E = E} api uuid vid pid devs
              (elim l [ [] ↦ err device_not_found | dev ∷ rest ↦ ok dev ])
      first [] h a = (refl, with_ids-none devs h)
      first (d ∷ rest) h a = let (x, y) = with_ids-some devs rest d h in (x, y, inr a)
