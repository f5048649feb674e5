-- ===== src/Prelude/Assoc.antt =====
-- A `HashMap` as an association list: `insert` replaces the entry of its key or adds one at the
-- end. The order of the entries stands for the iteration order, which Rust leaves open.
pub mod Collect
use odyssey_desktop.Prelude.{◌≡◌, refl, Option, none, some, List, [], ◌∷◌, arith, if◌then◌else◌, Eq}

abbrev pub Map {ℓ κ} : Type ℓ → Type κ → Type (ℓ ⊔ κ)
Map K V = List (K × V)

module _ {ℓ κ} {K : Type ℓ} ⦃e : Eq K⦄ {V : Type κ} where
  unfoldable pub lookup : K → Map K V → Option V
  lookup k [] = none
  lookup k ((j, v) ∷ m) = if e.beq j k then some v else lookup k m

  unfoldable pub insert : K → V → Map K V → Map K V
  insert k v [] = (k, v) ∷ []
  insert k v ((j, w) ∷ m) = if e.beq j k then (k, v) ∷ m else (j, w) ∷ insert k v m

  pub lookup-insert :
      (k j : K) (v : V) (m : Map K V)
      → lookup j (insert k v m) ≡ (if e.beq k j then some v else lookup j m)
  unfolding lookup insert
  lookup-insert k j v [] = refl
  lookup-insert k j v ((i, w) ∷ m) =
      ground (arith, e.beq_iff k j, e.beq_iff i k, e.beq_iff i j, lookup-insert k j v m)

  -- `HashMap::remove`
  unfoldable pub remove_key : K → Map K V → Map K V
  remove_key k [] = []
  remove_key k ((j, v) ∷ m) = if e.beq j k then remove_key k m else (j, v) ∷ remove_key k m

  pub lookup-remove_key :
      (k j : K) (m : Map K V) → lookup j (remove_key k m) ≡ (if e.beq k j then none else lookup j m)
  unfolding lookup remove_key
  lookup-remove_key k j [] = ground (arith, e.beq_iff k j)
  lookup-remove_key k j ((i, w) ∷ m) =
      ground (arith, e.beq_iff k j, e.beq_iff i k, e.beq_iff i j, lookup-remove_key k j m)
