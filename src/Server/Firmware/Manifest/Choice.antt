-- ===== src/Server/Firmware/Manifest/Choice.antt =====
-- The firmware that is offered to a device.
use odyssey_desktop.Prelude.{
  ◌≤◌, ◌<◌, ◌≡◌, ◌⊎◌, true, false, Option, none, some, List, [], ◌∷◌, arith, Bytes, refl, inl, inr,
  bytes_inst, All, Any, Bool-cases, Option-cases, sym, subst, ◌&&◌, Bool, ◌↔◌,
}
use odyssey_desktop.Prelude.Assoc.{lookup}
use odyssey_desktop.Common.Device.{Version}
use odyssey_desktop.Server.Firmware.Manifest.{
  FirmwareManifest, DeviceManifest, FirmwareEntry, parse_u16, split_by, three_parts, version_parts,
  versions_compatible, version_newer, first_compatible, find_compatible_firmware,
}
use odyssey_desktop.Server.Firmware.Manifest.Order.{
  IsU16, rank, Compatible, newer_iff-rank, parse_u16_bound,
}

three_parts-IsU16 : (l : List Bytes) (v : Version) → three_parts l ≡ some v → IsU16 v
unfolding three_parts
three_parts-IsU16 (a ∷ b ∷ c ∷ []) v e = elim (Option-cases (parse_u16 a)) [
  | inl n ↦ absurd (ground (arith, n, e))
  | inr (x, p) ↦ elim (Option-cases (parse_u16 b)) [
    | inl n ↦ absurd (ground (arith, p, n, e))
    | inr (y, q) ↦ elim (Option-cases (parse_u16 c)) [
      | inl n ↦ absurd (ground (arith, p, q, n, e))
      | inr (z, r) ↦ record {
        major = ground (arith, p, q, r, e, parse_u16_bound a x p);
        minor = ground (arith, p, q, r, e, parse_u16_bound b y q);
        patch = ground (arith, p, q, r, e, parse_u16_bound c z r);
      }
    ]
  ]
]
three_parts-IsU16 [] v e = cc
three_parts-IsU16 (a ∷ []) v e = cc
three_parts-IsU16 (a ∷ b ∷ []) v e = cc
three_parts-IsU16 (a ∷ b ∷ c ∷ d ∷ l) v e = cc

version_parts-IsU16 : (e : FirmwareEntry) (v : Version) → version_parts e ≡ some v → IsU16 v
unfolding version_parts
version_parts-IsU16 e v h = three_parts-IsU16 (split_by b'.' e.version) v h

-- The firmware has a version number that is newer than the device's and compatible with it.
abbrev pub Suits : Version → FirmwareEntry → Type 0
Suits dv e = (v : Version) × (version_parts e ≡ some v) × Compatible dv v × (rank dv < rank v)

-- The second version, where both can be read, is not newer than the first.
abbrev pub NotNewer : Option Version → Option Version → Type 0
NotNewer none w = Unit
NotNewer (some v) none = Unit
NotNewer (some v) (some w) = rank w ≤ rank v

-- Each firmware of the list is at least as new as those behind it.
abbrev pub NewestFirst : List FirmwareEntry → Type 0
NewestFirst [] = Unit
NewestFirst (e ∷ es) = All (λ x. NotNewer (version_parts e) (version_parts x)) es × NewestFirst es

-- The result is a firmware of the list that suits, such that each of the list is unsuitable or not
-- newer; or it is `None` and none suits.
abbrev pub IsBest : Version → List FirmwareEntry → Option FirmwareEntry → Type 0
IsBest dv es none = All (λ x. ¬ Suits dv x) es
IsBest dv es (some e) =
    Any (λ x. x ≡ e) es
    × Suits dv e
    × All (λ x. (¬ Suits dv x) ⊎ NotNewer (version_parts e) (version_parts x)) es

abbrev suits : Version → Version → Bool
suits dv v = versions_compatible dv v && version_newer dv v

both : (a b : Bool) → (a && b ≡ true) ↔ ((a ≡ true) × (b ≡ true))
both a b = ground arith

-- What the test of the loop decides.
test_suits :
    (dv : Version) (e : FirmwareEntry) (v : Version)
    → IsU16 dv
    → version_parts e ≡ some v
    → suits dv v ≡ true
    → Suits dv e
test_suits dv e v a p t =
    let (n, c) = newer_iff-rank dv v a (version_parts-IsU16 e v p) in
    let (x, y) = (both _ _).0 t in (v, p, c.0 x, n.0 y)

test_fails :
    (dv : Version) (e : FirmwareEntry) (v : Version)
    → IsU16 dv
    → version_parts e ≡ some v
    → suits dv v ≡ false
    → ¬ Suits dv e
test_fails dv e v a p f (w, q, x, y) =
    let (n, c) = newer_iff-rank dv w a (version_parts-IsU16 e w q) in
    let t : suits dv w ≡ true = (both _ _).1 (c.1 x, n.1 y) in cc

unreadable_fails : (dv : Version) (e : FirmwareEntry) → version_parts e ≡ none → ¬ Suits dv e
unreadable_fails dv e p (w, q, x, y) = cc

-- A firmware at the front that is not suitable changes nothing.
IsBest-skip :
    (dv : Version) (e : FirmwareEntry) (es : List FirmwareEntry) (r : Option FirmwareEntry)
    → ¬ Suits dv e
    → IsBest dv es r
    → IsBest dv (e ∷ es) r
IsBest-skip dv e es none n b = (n, b)
IsBest-skip dv e es (some x) n (a, s, l) = (inr a, s, (inl n, l))

All-NotNewer :
    (dv : Version) (e : FirmwareEntry) (es : List FirmwareEntry)
    → All (λ x. NotNewer (version_parts e) (version_parts x)) es
    → All (λ x. (¬ Suits dv x) ⊎ NotNewer (version_parts e) (version_parts x)) es
All-NotNewer dv e [] h = tt
All-NotNewer dv e (x ∷ es) h = (inr h.0, All-NotNewer dv e es h.1)

NotNewer-refl : (o : Option Version) → NotNewer o o
NotNewer-refl none = tt
NotNewer-refl (some v) = omega arith

IsBest-found :
    (dv : Version) (e : FirmwareEntry) (es : List FirmwareEntry)
    → NewestFirst (e ∷ es)
    → Suits dv e
    → IsBest dv (e ∷ es) (some e)
IsBest-found dv e es h s =
    (inl refl, s, (inr (NotNewer-refl (version_parts e)), All-NotNewer dv e es h.0))

pub first_compatible-IsBest :
    (dv : Version) (es : List FirmwareEntry)
    → IsU16 dv
    → NewestFirst es
    → IsBest dv es (first_compatible dv es)
unfolding first_compatible
first_compatible-IsBest dv [] a h = tt
first_compatible-IsBest dv (e ∷ es) a h =
    let rest = first_compatible-IsBest dv es a h.1 in
    elim (Option-cases (version_parts e)) [
      | inl n ↦
          go (first_compatible dv es) (ground (arith, n))
            (IsBest-skip dv e es _ (unreadable_fails dv e n) rest)
      | inr (v, p) ↦ elim (Bool-cases (suits dv v)) [
        | inl t ↦
            go (some e) (ground (arith, p, t)) (IsBest-found dv e es h (test_suits dv e v a p t))
        | inr f ↦
            go (first_compatible dv es) (ground (arith, p, f))
              (IsBest-skip dv e es _ (test_fails dv e v a p f) rest)
      ]
    ]
  where
    go :
        (r : Option FirmwareEntry)
        → first_compatible dv (e ∷ es) ≡ r
        → IsBest dv (e ∷ es) r
        → IsBest dv (e ∷ es) (first_compatible dv (e ∷ es))
    go r q b = subst (IsBest dv (e ∷ es)) (sym q) b

-- The firmwares of a device type, none if the manifest does not know it.
abbrev pub firmwares_of : FirmwareManifest → Bytes → List FirmwareEntry
firmwares_of m t = elim (lookup t m.devices) [ none ↦ [] | some d ↦ d.firmwares ]

-- For a manifest that lists the newest firmware of the device type first, the firmware that is
-- offered is compatible with the device's version and newer, and no other of the type that is so is
-- newer than it; if `None` is returned, no firmware of the type is compatible and newer.
pub find_compatible_firmware-IsBest :
    (m : FirmwareManifest) (t : Bytes) (dv : Version)
    → IsU16 dv
    → NewestFirst (firmwares_of m t)
    → IsBest dv (firmwares_of m t) (find_compatible_firmware m t dv)
unfolding find_compatible_firmware
find_compatible_firmware-IsBest m t dv a h = elim (Option-cases (lookup t m.devices)) [
  | inl n ↦ rw (n, firmwares_of) tt
  | inr (d, n) ↦
      subst (λ l. IsBest dv l (find_compatible_firmware m t dv)) (sym (known d n))
        (rw n (first_compatible-IsBest dv d.firmwares a (subst NewestFirst (known d n) h)))
]
  where
    known : (d : DeviceManifest) → lookup t m.devices ≡ some d → firmwares_of m t ≡ d.firmwares
    known d n = rw (n, firmwares_of) refl
