-- ===== src/Interface/Accessories/RoundTrip.antt =====
-- Accessories and the maps of them survive the way over the wire.
use odyssey_desktop.Prelude.{
  ℕ, zero, suc, ◌≤◌, ◌<◌, ◌≡◌, ◌≢◌, refl, sym, ap, ap₂, ◌∙◌, Bool, none, some, List, [], ◌∷◌, ◌++◌,
  map, arith, Bytes, bytes_inst, nat_eq, length, take, All, All-append, done, take_all, take-append,
  replicate, length-append, bytes_eq_iff,
}
use mathlib.Core.Option
use odyssey_desktop.Prelude.Assoc.{lookup, Map}
use odyssey_desktop.Prelude.Assoc.Collect.{insert_all, Distinct, insert_all-Distinct}
use odyssey_desktop.Common.Device.{copy_prefix}
use odyssey_desktop.Common.Accessory.{
  AccessoryType, AccessoryFeature, AccessoryInfo, AccessoryMap, AccessoryInfoMap,
}
use odyssey_desktop.Interface.Proto
use odyssey_desktop.Interface.Accessories.{
  from_le_bytes, to_le_bytes, key_to_proto, key_from_proto, info_to_proto, info_from_proto,
  features_from_proto, add_feature, feature_to_proto, feature_from_proto, type_to_proto,
  type_from_proto, status_to_proto, map_to_proto, map_from_proto, statuses_from_proto,
  info_entry_to_proto, info_map_to_proto, info_map_from_proto, infos_from_proto,
}

-- A MAC address.
pub record IsMac (k : Bytes) : Type 0 where
  pub six : length k ≡ 6
  pub bytes : All (λ b. b < 256) k

to_le_bytes-from_le_bytes :
    (n : ℕ) (bs : Bytes)
    → All (λ b. b < 256) bs
    → length bs ≡ n
    → to_le_bytes n (from_le_bytes bs) ≡ bs
unfolding to_le_bytes from_le_bytes
to_le_bytes-from_le_bytes zero [] a l = refl
to_le_bytes-from_le_bytes zero (b ∷ bs) a l = absurd (omega arith)
to_le_bytes-from_le_bytes (suc n) [] a l = absurd (omega arith)
to_le_bytes-from_le_bytes (suc n) (b ∷ bs) a l =
    ap₂ ◌∷◌ (omega (arith, a.0))
      (ap (to_le_bytes n) (omega (arith, a.0)) ∙ to_le_bytes-from_le_bytes n bs a.1 (omega arith))

padded : (k : Bytes) → length k ≡ 6 → copy_prefix (replicate 8 0) k 6 ≡ k ++ 0 ∷ 0 ∷ []
unfolding copy_prefix
padded k h = ap (λ l. l ++ 0 ∷ 0 ∷ []) (take_all k 6 (omega arith))

key_front : (n : ℕ) → key_from_proto n ≡ take 6 (to_le_bytes 8 n)
unfolding key_from_proto to_le_bytes copy_prefix
key_front n = refl

take_six : (k : Bytes) → length k ≡ 6 → take 6 (k ++ 0 ∷ 0 ∷ []) ≡ k
take_six k h = ap (λ n. take n (k ++ 0 ∷ 0 ∷ [])) (sym h) ∙ take-append k (0 ∷ 0 ∷ [])

-- The first six of the bytes of an address's number are the address.
pub take_six_key_to_proto : (k : Bytes) → IsMac k → take 6 (to_le_bytes 8 (key_to_proto k)) ≡ k
unfolding key_to_proto
take_six_key_to_proto k v =
    ap (λ x. take 6 (to_le_bytes 8 (from_le_bytes x))) (padded k v.six)
    ∙ ap (take 6) (
        to_le_bytes-from_le_bytes 8 (k ++ 0 ∷ 0 ∷ [])
          (All-append _ k (0 ∷ 0 ∷ []) v.bytes (omega arith))
          (omega (arith, length-append k (0 ∷ 0 ∷ []), v.six)))
    ∙ take_six k v.six

pub key_from_proto-key_to_proto : (k : Bytes) → IsMac k → key_from_proto (key_to_proto k) ≡ k
key_from_proto-key_to_proto k v = key_front (key_to_proto k) ∙ take_six_key_to_proto k v

-- An assignment is not zero, and a set does not hold the one feature twice.
pub record IsInfo (v : AccessoryInfo) : Type 0 where
  pub assignment : v.assignment ≢ some 0
  pub features : length v.features ≤ 1

features-round_trip :
    (fs : List AccessoryFeature)
    → length fs ≤ 1
    → features_from_proto [] (map (λ f. Proto.accessory_feature_number (feature_to_proto f)) fs)
      ≡ done fs
unfolding features_from_proto add_feature feature_to_proto feature_from_proto
    Proto.accessory_feature_number Proto.accessory_feature_of
features-round_trip [] h = refl
features-round_trip (AccessoryFeature.impact ∷ []) h = refl
features-round_trip (x ∷ y ∷ fs) h = absurd (omega arith)

type-round_trip :
    (t : AccessoryType)
    → Option.map type_from_proto
        (Proto.accessory_type_of (Proto.accessory_type_number (type_to_proto t)))
      ≡ some t
unfolding type_to_proto type_from_proto Proto.accessory_type_of Proto.accessory_type_number
type-round_trip AccessoryType.dry_fire_mag = refl
type-round_trip AccessoryType.mantis_x = refl

pub info_from_proto-info_to_proto :
    (v : AccessoryInfo) → IsInfo v → info_from_proto (info_to_proto v) ≡ done v
unfolding info_from_proto info_to_proto
info_from_proto-info_to_proto v i =
    ground (arith, type-round_trip v.ty, features-round_trip v.features i.features, i.assignment)

-- Different addresses have different numbers.
key_to_proto-injective : (k j : Bytes) → IsMac k → IsMac j → key_to_proto k ≡ key_to_proto j → k ≡ j
key_to_proto-injective k j v w e =
    sym (key_from_proto-key_to_proto k v) ∙ ap key_from_proto e ∙ key_from_proto-key_to_proto j w

module _ {V W : Type 0} (g : V → W) where
  -- The entries of a map by their numbers.
  abbrev numbered : Map Bytes V → Map ℕ W
  numbered m = map (λ x. (key_to_proto x.0, g x.1)) m

  lookup-numbered :
      (k : Bytes) (m : Map Bytes V)
      → IsMac k
      → All (λ x. IsMac x.0) m
      → lookup k m ≡ none
      → lookup (key_to_proto k) (numbered m) ≡ none
  unfolding lookup
  lookup-numbered k [] v a h = refl
  lookup-numbered k ((j, w) ∷ m) v a h =
      ground
        (arith, h, lookup-numbered k m v a.1, key_to_proto-injective j k a.0 v, bytes_eq_iff j k)

  Distinct-numbered :
      (m : Map Bytes V) → All (λ x. IsMac x.0) m → Distinct m → Distinct (numbered m)
  Distinct-numbered [] a d = tt
  Distinct-numbered ((k, v) ∷ m) a d =
      (lookup-numbered k m a.0 a.1 d.0, Distinct-numbered m a.1 d.1)

-- A map of accessories: its keys are addresses, each once, and its infos are as they should be.
pub record IsAccessoryMap (m : AccessoryMap) : Type 0 where
  pub distinct : Distinct m
  pub macs : All (λ x. IsMac x.0) m
  pub infos : All (λ x. IsInfo x.1.0) m

statuses-round_trip :
    (m : AccessoryMap)
    → All (λ x. IsMac x.0) m
    → All (λ x. IsInfo x.1.0) m
    → statuses_from_proto (map status_to_proto m) ≡ done m
unfolding statuses_from_proto status_to_proto
statuses-round_trip [] a b = refl
statuses-round_trip ((k, (v, c)) ∷ m) a b =
    rw (info_from_proto-info_to_proto v b.0)
      (rw (statuses-round_trip m a.1 b.1) (rw (key_from_proto-key_to_proto k a.0) refl))

abbrev status_of : AccessoryInfo × Bool → Proto.AccessoryStatus
status_of (info, connected) = record {
  accessory = some (info_to_proto info);
  connected = connected;
}

statuses-numbered : (m : AccessoryMap) → map status_to_proto m ≡ numbered status_of m
unfolding status_to_proto
statuses-numbered [] = refl
statuses-numbered ((k, (v, c)) ∷ m) =
    ap (◌∷◌ (key_to_proto k, status_of (v, c))) (statuses-numbered m)

map_to_proto-entries :
    (m : AccessoryMap) → IsAccessoryMap m → map_to_proto m ≡ map status_to_proto m
unfolding map_to_proto
map_to_proto-entries m v =
    ap (insert_all []) (statuses-numbered m)
    ∙ insert_all-Distinct (numbered status_of m) (Distinct-numbered status_of m v.macs v.distinct)
    ∙ sym (statuses-numbered m)

-- A map of accessories with their connection arrives as it was sent.
pub map_from_proto-map_to_proto :
    (m : AccessoryMap) → IsAccessoryMap m → map_from_proto (map_to_proto m) ≡ done m
unfolding map_from_proto
map_from_proto-map_to_proto m v =
    rw (map_to_proto-entries m v)
      (rw (statuses-round_trip m v.macs v.infos) (ap done (insert_all-Distinct m v.distinct)))

infos-numbered : (m : AccessoryInfoMap) → map info_entry_to_proto m ≡ numbered info_to_proto m
unfolding info_entry_to_proto
infos-numbered [] = refl
infos-numbered ((k, v) ∷ m) = ap (◌∷◌ (key_to_proto k, info_to_proto v)) (infos-numbered m)

infos-round_trip :
    (m : AccessoryInfoMap)
    → All (λ x. IsMac x.0) m
    → All (λ x. IsInfo x.1) m
    → infos_from_proto (map info_entry_to_proto m) ≡ done m
unfolding infos_from_proto info_entry_to_proto
infos-round_trip [] a b = refl
infos-round_trip ((k, v) ∷ m) a b =
    rw (info_from_proto-info_to_proto v b.0)
      (rw (infos-round_trip m a.1 b.1) (rw (key_from_proto-key_to_proto k a.0) refl))

-- A map of accessory infos, of distinct addresses and of infos as they should be, arrives as it was
-- sent.
pub info_map_from_proto-info_map_to_proto :
    (m : AccessoryInfoMap)
    → Distinct m
    → All (λ x. IsMac x.0) m
    → All (λ x. IsInfo x.1) m
    → info_map_from_proto (info_map_to_proto m) ≡ done m
unfolding info_map_from_proto info_map_to_proto
info_map_from_proto-info_map_to_proto m d a b =
    rw
      (ap (insert_all []) (infos-numbered m)
        ∙ insert_all-Distinct (numbered info_to_proto m) (Distinct-numbered info_to_proto m a d)
        ∙ sym (infos-numbered m))
      (rw (infos-round_trip m a b) (ap done (insert_all-Distinct m d)))
