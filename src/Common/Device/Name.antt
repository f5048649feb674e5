-- ===== src/Common/Device/Name.antt =====
-- What `name` reads back of what `set_name` wrote.
use odyssey_desktop.Prelude.{
  ℕ, zero, suc, ◌-◌, ◌≤◌, ◌<◌, ◌≡◌, ◌≢◌, refl, ap, ap₂, ◌∙◌, inl, inr, true, false, some, [], ◌∷◌,
  ◌++◌, arith, Bytes, lt→ltb, le→leb, ◌==◌, if◌then◌else◌, min, length, take, drop, replicate, All,
  Bool-cases, length-take, length-append, length-replicate, take_all,
}
use odyssey_desktop.Common.Device.{
  Device, utf8_valid, position_zero, name_bytes, name_str, set_name,
}
use odyssey_desktop.Common.Device.Utf8.{utf8_from}

-- A C string: the bytes before the first zero.
abbrev pub until_nul : Bytes → Bytes
until_nul [] = []
until_nul (b ∷ bs) = if b == 0 then [] else b ∷ until_nul bs

position_zero-append : (t zs : Bytes) → position_zero (t ++ 0 ∷ zs) ≡ some (length (until_nul t))
unfolding position_zero
position_zero-append [] zs = refl
position_zero-append (b ∷ t) zs = ground (arith, position_zero-append t zs)

take-until_nul : (t zs : Bytes) → take (length (until_nul t)) (t ++ zs) ≡ until_nul t
take-until_nul [] zs = refl
take-until_nul (b ∷ t) zs = elim (Bool-cases (b == 0)) [
  | inl e ↦ rw e
  | inr e ↦ rw e (ap (◌∷◌ b) (take-until_nul t zs))
]

take-min : (s : Bytes) (n : ℕ) → take (min (length s) n) s ≡ take n s
take-min [] zero = refl
take-min [] (suc n) = ap (λ k. take {A = ℕ} k []) (let e : min 0 (suc n) ≡ 0 = omega arith in e)
take-min (b ∷ s) zero =
    ap (λ k. take k (b ∷ s)) (let e : min (suc (length s)) 0 ≡ 0 = omega arith in e)
take-min (b ∷ s) (suc n) =
    ap (λ k. take k (b ∷ s))
      (let e : min (suc (length s)) (suc n) ≡ suc (min (length s) n) = omega arith in e)
    ∙ ap (◌∷◌ b) (take-min s n)

zeros : ℕ → Bytes
zeros n = replicate n 0

drop-zeros : (n m : ℕ) → n < m → drop n (zeros m) ≡ 0 ∷ zeros (m - n - 1)
unfolding zeros
drop-zeros n zero h = absurd (omega arith)
drop-zeros zero (suc m) h = ap (λ k. 0 ∷ zeros k) (let e : m ≡ suc m - 0 - 1 = omega arith in e)
drop-zeros (suc n) (suc m) h =
    drop-zeros n m (omega arith)
    ∙ ap (λ k. 0 ∷ zeros k) (let e : m - n - 1 ≡ suc m - suc n - 1 = omega arith in e)

-- The buffer: up to 32 bytes of the text, then zeros, at least one.
name_bytes_lem : (s : Bytes) → name_bytes s ≡ take 32 s ++ 0 ∷ zeros (32 - min (length s) 32)
unfolding name_bytes zeros
name_bytes_lem s = ap₂ ◌++◌ (take-min s 32) (
    drop-zeros (min (length s) 32) 33 (omega arith)
    ∙ ap (λ k. 0 ∷ zeros k)
        (let e : 33 - min (length s) 32 - 1 ≡ 32 - min (length s) 32 = omega arith in e))

-- A buffer that starts with `t` and a zero is read back as `t` up to its own first zero.
name_str-append :
    (d : Device) (t zs : Bytes)
    → d.name ≡ t ++ 0 ∷ zs
    → name_str d ≡ (if utf8_valid (until_nul t) then until_nul t else [])
unfolding name_str
name_str-append d t zs e = rw (e, position_zero-append t zs) (rw (take-until_nul t (0 ∷ zs)))

-- `name` after `set_name`: the first 32 bytes of the text up to a NUL in it, or the empty string
-- where those bytes are not UTF-8. The buffer keeps its 33 bytes.
pub name_str-set_name :
    (d : Device) (s : Bytes)
    → (name_str (set_name d s)
        ≡ (if utf8_valid (until_nul (take 32 s)) then until_nul (take 32 s) else []))
      × (length (set_name d s).name ≡ 33)
unfolding set_name name_bytes zeros
name_str-set_name d s = (
  name_str-append (set_name d s) (take 32 s) _ (name_bytes_lem s),
  ap length (name_bytes_lem s)
      ∙ length-append (take 32 s) _
      ∙ omega (arith, length-take 32 s, length-replicate {A = ℕ} (32 - min (length s) 32) 0),
)

until_nul-All : (t : Bytes) → All (λ b. b ≢ 0) t → until_nul t ≡ t
until_nul-All [] h = refl
until_nul-All (b ∷ t) h = ground (arith, h.0, until_nul-All t h.1)

-- A text of at most 32 bytes with no NUL is read back as it was set.
pub name_str-set_name_self :
    (d : Device) (s : Bytes)
    → utf8_valid s ≡ true
    → All (λ b. b ≢ 0) s
    → length s ≤ 32
    → name_str (set_name d s) ≡ s
name_str-set_name_self d s valid nonzero short =
    (name_str-set_name d s).0 ∙ rw (take_all s 32 short) (rw (until_nul-All s nonzero) (rw valid))

utf8_from-ascii :
    (p rest : Bytes) → All (λ b. b < 0x80) p → utf8_from [] (p ++ rest) ≡ utf8_from [] rest
unfolding utf8_from
utf8_from-ascii [] rest h = refl
utf8_from-ascii (b ∷ p) rest h = rw (lt→ltb b 0x80 h.0, utf8_from) (utf8_from-ascii p rest h.1)

take-split :
    (p : Bytes) (c : ℕ) (rest : Bytes) (n : ℕ)
    → length p ≡ n
    → take (suc n) (p ++ c ∷ rest) ≡ p ++ c ∷ []
take-split [] c rest zero h = refl
take-split [] c rest (suc n) h = absurd (omega arith)
take-split (b ∷ p) c rest zero h = absurd (omega arith)
take-split (b ∷ p) c rest (suc n) h = ap (◌∷◌ b) (take-split p c rest n (omega arith))

until_nul-split :
    (p : Bytes) (c : ℕ)
    → All (λ b. (0 < b) × (b < 0x80)) p
    → 0 < c
    → until_nul (p ++ c ∷ []) ≡ p ++ c ∷ []
until_nul-split [] c h pos = ground arith
until_nul-split (b ∷ p) c h pos = ground (arith, h.0, until_nul-split p c h.1 pos)

below_80 : (p : Bytes) → All (λ b. (0 < b) × (b < 0x80)) p → All (λ b. b < 0x80) p
below_80 [] h = tt
below_80 (b ∷ p) h = (h.0.1, below_80 p h.1)

two_bytes :
    (c : ℕ) (bs : Bytes)
    → 0xC2 ≤ c
    → c < 0xE0
    → utf8_from [] (c ∷ bs) ≡ utf8_from ((0x80, 0xBF) ∷ []) bs
unfolding utf8_from
two_bytes c bs lo hi = ground arith

-- A valid name is lost when the 32-byte limit falls inside a character: 31 ASCII bytes, a character
-- of two bytes and any valid rest make a valid text, which `set_name` stores so that `name` returns
-- the empty string.
pub name_str-set_name_split :
    (d : Device) (p : Bytes) (c b : ℕ) (rest : Bytes)
    → length p ≡ 31
    → All (λ x. (0 < x) × (x < 0x80)) p
    → (0xC2 ≤ c) × (c < 0xE0)
    → (0x80 ≤ b) × (b ≤ 0xBF)
    → (utf8_valid (p ++ c ∷ b ∷ rest) ≡ utf8_valid rest)
      × (name_str (set_name d (p ++ c ∷ b ∷ rest)) ≡ [])
unfolding utf8_valid
name_str-set_name_split d p c b rest len ascii lead tail = (
  utf8_from-ascii p (c ∷ b ∷ rest) (below_80 p ascii)
      ∙ two_bytes c (b ∷ rest) lead.0 lead.1
      ∙ rw (le→leb 0x80 b tail.0, le→leb b 0xBF tail.1),
  (name_str-set_name d (p ++ c ∷ b ∷ rest)).0
      ∙ rw (take-split p c (b ∷ rest) 31 len)
          (rw (until_nul-split p c ascii (omega arith)) (rw cut)),
)
  where
    cut : utf8_valid (p ++ c ∷ []) ≡ false
    cut = utf8_from-ascii p (c ∷ []) (below_80 p ascii) ∙ two_bytes c [] lead.0 lead.1
