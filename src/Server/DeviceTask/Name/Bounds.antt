-- ===== src/Server/DeviceTask/Name/Bounds.antt =====
-- The name that is sent fits the buffer and begins the name that was asked for.
use mathlib.Core.List.{append_assoc}
use odyssey_desktop.Prelude.{
  ℕ, ◌-◌, ◌≤◌, ◌≡◌, refl, ap, sym, ◌∙◌, subst, inl, inr, Bool-cases, List, [], ◌∷◌, ◌++◌, arith,
  Bytes, is_tail, length, length-append, if◌then◌else◌, leb, leb→le,
}
use odyssey_desktop.Server.DeviceTask.Name.{chars, join_byte, push_chars, heapless_name}

flat : List Bytes → Bytes
flat [] = []
flat (c ∷ cs) = c ++ flat cs

flat-join_byte : (b : ℕ) (cs : List Bytes) → flat (join_byte b cs) ≡ b ∷ flat cs
unfolding flat join_byte
flat-join_byte b [] = refl
flat-join_byte b ([] ∷ cs) = refl
flat-join_byte b ((c ∷ bs) ∷ cs) = elim (Bool-cases (is_tail c)) [
  | inl e ↦ rw (e, join_byte) refl
  | inr e ↦ rw (e, join_byte) refl
]

flat-chars : (s : Bytes) → flat (chars s) ≡ s
unfolding chars
flat-chars [] = unfold flat in refl
flat-chars (b ∷ s) = flat-join_byte b (chars s) ∙ ap (λ x. b ∷ x) (flat-chars s)

push_chars-bound : (room : ℕ) (cs : List Bytes) → length (push_chars room cs) ≤ room
unfolding push_chars
push_chars-bound room [] = omega arith
push_chars-bound room (c ∷ cs) = elim (Bool-cases (leb (length c) room)) [
  | inl e ↦ ground (
    arith,
    e,
    length-append c (push_chars (room - length c) cs),
    push_chars-bound (room - length c) cs,
  )
  | inr e ↦ ground (arith, e)
]

-- What is left out of a text.
dropped : ℕ → List Bytes → Bytes
dropped room [] = []
dropped room (c ∷ cs) =
    let rest = dropped (room - length c) cs in if leb (length c) room then rest else c ++ flat cs

push_chars-prefix : (room : ℕ) (cs : List Bytes) → push_chars room cs ++ dropped room cs ≡ flat cs
unfolding push_chars dropped flat
push_chars-prefix room [] = refl
push_chars-prefix room (c ∷ cs) = elim (Bool-cases (leb (length c) room)) [
  | inl e ↦
      rw (e, push_chars, dropped)
        (append_assoc c _ _ ∙ ap (λ x. c ++ x) (push_chars-prefix (room - length c) cs))
  | inr e ↦ rw (e, push_chars, dropped) refl
]

dropped-short : (room : ℕ) (cs : List Bytes) → length (flat cs) ≤ room → dropped room cs ≡ []
unfolding dropped flat
dropped-short room [] h = refl
dropped-short room (c ∷ cs) h =
    ground (arith, h, length-append c (flat cs), dropped-short (room - length c) cs)

-- The name that is sent has at most 32 bytes, it is the name that was asked for if that has at most
-- 32 bytes, and in any case the beginning of it.
pub heapless_name_bound :
    (name : Bytes)
    → (length (heapless_name name) ≤ 32)
      × ((rest : Bytes) × (heapless_name name ++ rest ≡ name)
          × ((if leb (length name) 32 then rest else []) ≡ []))
unfolding heapless_name
heapless_name_bound name = (
  push_chars-bound 32 (chars name),
  (
    dropped 32 (chars name),
    push_chars-prefix 32 (chars name) ∙ flat-chars name,
    elim (Bool-cases (leb (length name) 32)) [
      | inl e ↦ rw e (
          dropped-short 32 (chars name)
            (subst (λ x. length x ≤ 32) (sym (flat-chars name)) (leb→le (length name) 32 e)))
      | inr e ↦ rw e refl
    ],
  ),
)
