-- ===== src/Prelude/Assoc/Collect.antt =====
-- A `HashMap` that is collected from entries.
use odyssey_desktop.Prelude.{
  ◌≡◌, refl, ap, sym, ◌∙◌, none, List, [], ◌∷◌, ◌++◌, arith, Eq, Bool-cases, inl, inr,
}
use mathlib.Core.List.{append-nil, append_assoc}
use odyssey_desktop.Prelude.Assoc.{Map, lookup, insert}

module _ {ℓ κ} {K : Type ℓ} ⦃e : Eq K⦄ {V : Type κ} where
  unfoldable pub insert_all : Map K V → List (K × V) → Map K V
  unfolding insert
  insert_all m [] = m
  insert_all m ((k, v) ∷ es) = insert_all (insert k v m) es

  -- No key is in the list twice.
  abbrev pub Distinct : Map K V → Type κ
  Distinct [] = Unit
  Distinct ((k, v) ∷ m) = (lookup k m ≡ none) × Distinct m

  abbrev Fresh : Map K V → Map K V → Type κ
  Fresh values [] = Unit
  Fresh values ((k, v) ∷ m) = (lookup k values ≡ none) × Fresh values m

  Fresh-nil : (m : Map K V) → Fresh [] m
  unfolding lookup
  Fresh-nil [] = tt
  Fresh-nil ((k, v) ∷ m) = (refl, Fresh-nil m)

  insert_fresh : (k : K) (v : V) (m : Map K V) → lookup k m ≡ none → insert k v m ≡ m ++ (k, v) ∷ []
  unfolding lookup insert
  insert_fresh k v [] h = refl
  insert_fresh k v ((j, w) ∷ m) h = ground (arith, h, insert_fresh k v m)

  lookup-append : (k : K) (m n : Map K V) → lookup k m ≡ none → lookup k (m ++ n) ≡ lookup k n
  unfolding lookup
  lookup-append k [] n h = refl
  lookup-append k ((j, w) ∷ m) n h = elim (Bool-cases (e.beq j k)) [
    | inl p ↦ ground (arith, h)
    | inr p ↦ rw p (lookup-append k m n (ground (arith, h)))
  ]

  Fresh-snoc :
      (m values : Map K V) (k : K) (v : V)
      → Fresh values m
      → lookup k m ≡ none
      → Fresh (values ++ (k, v) ∷ []) m
  unfolding lookup
  Fresh-snoc [] values k v f h = tt
  Fresh-snoc ((j, w) ∷ m) values k v f h = elim (Bool-cases (e.beq j k)) [
    | inl p ↦ ground (arith, h)
    | inr p ↦ (
      lookup-append j values ((k, v) ∷ []) f.0 ∙ ground (arith, p, e.beq_iff j k, e.beq_iff k j),
      Fresh-snoc m values k v f.1 (ground (arith, h)),
    )
  ]

  insert_all-append :
      (m values : Map K V) → Distinct m → Fresh values m → insert_all values m ≡ values ++ m
  unfolding insert_all
  insert_all-append [] values d f = sym (append-nil values)
  insert_all-append ((k, v) ∷ m) values d f =
      ap (λ x. insert_all x m) (insert_fresh k v values f.0)
      ∙ insert_all-append m (values ++ (k, v) ∷ []) d.1 (Fresh-snoc m values k v f.1 d.0)
      ∙ append_assoc values ((k, v) ∷ []) m

  -- Entries of distinct keys are collected as they are.
  pub insert_all-Distinct : (m : Map K V) → Distinct m → insert_all [] m ≡ m
  insert_all-Distinct m d = insert_all-append m [] d (Fresh-nil m)
