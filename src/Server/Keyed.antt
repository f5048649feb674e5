-- ===== src/Server/Keyed.antt =====
-- A `Vec` of entries that is searched by key: `position`, `find`, and the changes at a position.
use mathlib.Core.Option
use odyssey_desktop.Prelude.{
  ℕ, zero, suc, ◌≡◌, refl, subst, sym, ◌∙◌, inl, inr, Option, none, some, List, [], ◌∷◌, ◌++◌,
  arith, Bytes, bytes_eq, bytes_eq_iff, if◌then◌else◌, get_elem?, set, Bool-cases,
}

-- `Vec::remove`
abbrev pub remove_at {ℓ} : {A : Type ℓ} → List A → ℕ → List A
remove_at [] i = []
remove_at (x ∷ xs) zero = xs
remove_at (x ∷ xs) (suc i) = x ∷ remove_at xs i

module _ {A : Type 0} (key : A → Bytes) where
  -- `iter().position(|a| a.key == u)`
  unfoldable pub position : Bytes → List A → Option ℕ
  position u [] = none
  position u (x ∷ xs) =
      if bytes_eq (key x) u
      then some 0
      else elim (position u xs) [ none ↦ none | some i ↦ some (suc i) ]

  -- `iter().find(|a| a.key == u)`
  unfoldable pub find : Bytes → List A → Option A
  find u [] = none
  find u (x ∷ xs) = if bytes_eq (key x) u then some x else find u xs

  -- `iter_mut().find(|a| a.key == u)` and a change of what it finds.
  unfoldable pub modify : Bytes → (A → A) → List A → List A
  modify u f [] = []
  modify u f (x ∷ xs) = if bytes_eq (key x) u then f x ∷ xs else x ∷ modify u f xs

  -- No key occurs twice.
  abbrev pub Unique : List A → Type 0
  Unique [] = Unit
  Unique (x ∷ xs) = (find (key x) xs ≡ none) × Unique xs

  pub data Located (u : Bytes) (xs : List A) : Type 0 where
    absent : position u xs ≡ none → find u xs ≡ none → Located u xs
    present :
        (i : ℕ) (x : A)
        → position u xs ≡ some i
        → get_elem? xs i ≡ some x
        → key x ≡ u
        → find u xs ≡ some x
        → Located u xs

  pub locate : (u : Bytes) (xs : List A) → Located u xs
  unfolding position find
  locate u [] = absent refl refl
  locate u (x ∷ xs) = elim (Bool-cases (bytes_eq (key x) u)) [
    | inl e ↦ present 0 x (rw e) refl ((bytes_eq_iff (key x) u).0 e) (rw e)
    | inr e ↦ elim (locate u xs) [
      | absent p f ↦ absent (ground (arith, e, p)) (rw e f)
      | present i y p g k f ↦ present (suc i) y (ground (arith, e, p)) g k (rw e f)
    ]
  ]

  pub find-key : (u : Bytes) (xs : List A) (x : A) → find u xs ≡ some x → key x ≡ u
  unfolding find
  find-key u [] x h = cc
  find-key u (y ∷ xs) x h = ground (arith, bytes_eq_iff (key y) u, find-key u xs x)

  pub find-set :
      (u w : Bytes) (xs : List A) (i : ℕ) (v : A)
      → position u xs ≡ some i
      → key v ≡ u
      → find w (set xs i v) ≡ (if bytes_eq u w then some v else find w xs)
  unfolding position find
  find-set u w [] i v p k = cc
  find-set u w (x ∷ xs) zero v p k = ground (arith, bytes_eq_iff (key x) u)
  find-set u w (x ∷ xs) (suc i) v p k =
      ground (
        arith,
        bytes_eq_iff (key x) u,
        bytes_eq_iff (key x) w,
        bytes_eq_iff u w,
        find-set u w xs i v,
      )

  pub find-append :
      (w : Bytes) (xs : List A) (v : A)
      → find w (xs ++ v ∷ [])
        ≡ elim (find w xs) [ some x ↦ some x | none ↦ if bytes_eq (key v) w then some v else none ]
  unfolding find
  find-append w [] v = refl
  find-append w (x ∷ xs) v = elim (Bool-cases (bytes_eq (key x) w)) [
    | inl e ↦ rw e
    | inr e ↦ rw e (find-append w xs v)
  ]

  pub find-modify :
      (u w : Bytes) (f : A → A) (xs : List A)
      → ((x : A) → key x ≡ u → key (f x) ≡ u)
      → find w (modify u f xs) ≡ (if bytes_eq u w then Option.map f (find w xs) else find w xs)
  unfolding modify find
  find-modify u w f [] h = ground arith
  find-modify u w f (x ∷ xs) h = elim (Bool-cases (bytes_eq (key x) u)) [
    | inl e ↦
        let p = (bytes_eq_iff (key x) u).0 e in
        let q = h x p in ground (arith, e, p, q, bytes_eq_iff (key x) w, bytes_eq_iff u w)
    | inr e ↦ ground (
      arith,
      e,
      bytes_eq_iff (key x) w,
      bytes_eq_iff u w,
      bytes_eq_iff (key x) u,
      find-modify u w f xs h,
    )
  ]

  pub find-remove_at :
      (u w : Bytes) (xs : List A) (i : ℕ)
      → position u xs ≡ some i
      → Unique xs
      → find w (remove_at xs i) ≡ (if bytes_eq u w then none else find w xs)
  unfolding position find
  find-remove_at u w [] i p h = cc
  find-remove_at u w (x ∷ xs) zero p h =
      ground (arith, bytes_eq_iff (key x) u, bytes_eq_iff (key x) w, bytes_eq_iff u w, h.0)
  find-remove_at u w (x ∷ xs) (suc i) p h = ground (
    arith,
    bytes_eq_iff (key x) u,
    bytes_eq_iff (key x) w,
    bytes_eq_iff u w,
    find-remove_at u w xs i,
    h.1,
  )

  pub Unique-set :
      (u : Bytes) (xs : List A) (i : ℕ) (v : A)
      → position u xs ≡ some i
      → key v ≡ u
      → Unique xs
      → Unique (set xs i v)
  unfolding position find
  Unique-set u [] i v p k h = tt
  Unique-set u (x ∷ xs) zero v p k h = (ground (arith, bytes_eq_iff (key x) u, h.0), h.1)
  Unique-set u (x ∷ xs) (suc i) v p k h = (
    ground (arith, bytes_eq_iff (key x) u, bytes_eq_iff u (key x), find-set u (key x) xs i v, h.0),
    Unique-set u xs i v (ground arith) k h.1,
  )

  find-remove_at-none :
      (w : Bytes) (xs : List A) (i : ℕ) → find w xs ≡ none → find w (remove_at xs i) ≡ none
  unfolding find
  find-remove_at-none w [] i h = refl
  find-remove_at-none w (x ∷ xs) zero h = ground (arith, h)
  find-remove_at-none w (x ∷ xs) (suc i) h = ground (arith, h, find-remove_at-none w xs i)

  pub Unique-remove_at : (xs : List A) (i : ℕ) → Unique xs → Unique (remove_at xs i)
  Unique-remove_at [] i h = tt
  Unique-remove_at (x ∷ xs) zero h = h.1
  Unique-remove_at (x ∷ xs) (suc i) h =
      (find-remove_at-none (key x) xs i h.0, Unique-remove_at xs i h.1)

  pub Unique-append :
      (xs : List A) (v : A) → find (key v) xs ≡ none → Unique xs → Unique (xs ++ v ∷ [])
  unfolding find
  Unique-append [] v f h = (refl, tt)
  Unique-append (x ∷ xs) v f h = (
    ground (
      arith,
      f,
      bytes_eq_iff (key x) (key v),
      bytes_eq_iff (key v) (key x),
      find-append (key x) xs v,
      h.0,
    ),
    Unique-append xs v (ground arith) h.1,
  )

  pub Unique-modify :
      (u : Bytes) (f : A → A) (xs : List A)
      → ((x : A) → key x ≡ u → key (f x) ≡ u)
      → Unique xs
      → Unique (modify u f xs)
  unfolding modify
  Unique-modify u f [] k h = tt
  Unique-modify u f (x ∷ xs) k h = elim (Bool-cases (bytes_eq (key x) u)) [
    | inl e ↦ rw e (
      let p = (bytes_eq_iff (key x) u).0 e in subst (λ y. find y xs ≡ none) (p ∙ sym (k x p)) h.0,
      h.1,
    )
    | inr e ↦ rw e (
      ground (
        arith,
        find-modify u (key x) f xs k,
        bytes_eq_iff u (key x),
        bytes_eq_iff (key x) u,
        e,
        h.0,
      ),
      Unique-modify u f xs k h.1,
    )
  ]
