-- ===== src/Client/TrackingHistory/Closest.antt =====
-- `get_closest` finds an event of least distance in time.
use native.Mathlib.Numerals.{add-one}
use mathlib.Core.List.{map-append}
use odyssey_desktop.Prelude.{
  ℕ, zero, suc, ◌+◌, ◌≤◌, ◌<◌, ◌≡◌, refl, sym, ap, ap₂, subst, ◌∙◌, ◌⊎◌, inl, inr, true, Option,
  none, some, List, [], ◌∷◌, ◌++◌, map, arith, length, get_elem?, take, drop, All, Any, done,
  Bool-cases, All-append, All-append_left, All-append_right, Any-append, Any-append_left,
  Any-append_right, take-append-drop, take-append, drop-append, take-map, drop-map, length-take,
  take_all, ltb, ltb→lt, if◌then◌else◌,
}
use odyssey_desktop.Common.Events.{TrackingEvent}
use odyssey_desktop.Client.TrackingHistory.{
  TrackingHistory, closer, closest_from, get_closest, abs_diff, u32_max,
}
use odyssey_desktop.Client.TrackingHistory.Refine.{Holds, slots_full, slots_open, length-map-some}

module _ {F : Type 0} (timestamp : ℕ) where
  abbrev pub distance : TrackingEvent F → ℕ
  distance e = abs_diff (TrackingEvent.timestamp e) timestamp

  -- The loop over the events alone.
  scan : List (TrackingEvent F) → Option (TrackingEvent F) × ℕ → Option (TrackingEvent F) × ℕ
  scan [] s = s
  scan (e ∷ es) s = scan es (closer timestamp s (some e))

  -- The slot at `i`, where the slots from `i` on begin with `x`.
  next_slot :
      (buffer : List (Option (TrackingEvent F))) (i k : ℕ) {x : Option (TrackingEvent F)}
      {rest : List (Option (TrackingEvent F))}
      → take (suc k) (drop i buffer) ≡ x ∷ rest
      → (take k (drop (suc i) buffer) ≡ rest) × (get_elem? buffer i ≡ some x)
  next_slot [] zero k h = cc
  next_slot [] (suc i) k h = cc
  next_slot (y ∷ buffer) zero k h = ground arith
  next_slot (y ∷ buffer) (suc i) k h = next_slot buffer i k h

  closest_from-scan :
      (buffer : List (Option (TrackingEvent F))) (es : List (TrackingEvent F)) (k i : ℕ)
      (s : Option (TrackingEvent F) × ℕ)
      → take k (drop i buffer) ≡ map some es
      → length es ≡ k
      → closest_from buffer timestamp k i s ≡ done (scan es s).0
  unfolding closest_from scan
  closest_from-scan buffer [] zero i s h l = refl
  closest_from-scan buffer [] (suc k) i s h l = absurd (omega arith)
  closest_from-scan buffer (e ∷ es) zero i s h l = absurd (omega arith)
  closest_from-scan buffer (e ∷ es) (suc k) i s h l =
      let (d, g) = next_slot buffer i k h in
      rw g (
        closest_from-scan buffer es k (i + 1) (closer timestamp s (some e)) (rw add-one d)
          (omega arith))

  -- What is known of the best event after the loop has seen `es`.
  abbrev pub IsClosest : List (TrackingEvent F) → Option (TrackingEvent F) → Type 0
  IsClosest q none = All (λ x. u32_max ≤ distance x) q
  IsClosest q (some e) =
      Any (λ x. x ≡ e) q × All (λ x. distance e ≤ distance x) q × (distance e < u32_max)

  -- The state of the loop after `seen`: no event seen is closer than the best difference, and the
  -- best event is one of those seen.
  record Seen (seen : List (TrackingEvent F)) (s : Option (TrackingEvent F) × ℕ) : Type 0 where
    least : All (λ x. s.1 ≤ distance x) seen
    best :
        ((s.0 ≡ none) × (s.1 ≡ u32_max))
        ⊎ ((e : TrackingEvent F) × (s.0 ≡ some e)
            × (s.1 ≡ distance e)
            × (distance e < u32_max)
            × Any (λ x. x ≡ e) seen)

  All-weaken :
      {m n : ℕ} (q : List (TrackingEvent F))
      → m ≤ n
      → All (λ x. n ≤ distance x) q
      → All (λ x. m ≤ distance x) q
  All-weaken [] h a = tt
  All-weaken (x ∷ q) h a = (omega arith, All-weaken q h a.1)

  closer-Seen :
      (seen : List (TrackingEvent F)) (s : Option (TrackingEvent F) × ℕ) (e : TrackingEvent F)
      → s.1 ≤ u32_max
      → Seen seen s
      → Seen (e ∷ seen) (closer timestamp s (some e))
  unfolding closer
  closer-Seen seen (b, d) e le v = elim (Bool-cases (ltb (distance e) d)) [
    | inl t ↦
        let lt : distance e < d = ltb→lt _ _ t in
        rw t (record {
          least = (omega arith, All-weaken seen (omega arith) v.least);
          best = inr (e, refl, refl, omega arith, inl refl);
        })
    | inr f ↦
        let ge : d ≤ distance e = ground arith in
        rw f (record {
          least = (ge, v.least);
          best = elim v.best [ inl b ↦ inl b | inr (x, p, q, r, a) ↦ inr (x, p, q, r, inr a) ];
        })
  ]

  closer-le :
      (s : Option (TrackingEvent F) × ℕ) (e : TrackingEvent F)
      → s.1 ≤ u32_max
      → (closer timestamp s (some e)).1 ≤ u32_max
  unfolding closer
  closer-le (b, d) e le = elim (Bool-cases (ltb (distance e) d)) [
    | inl t ↦ let lt : distance e < d = ltb→lt _ _ t in rw t (omega arith)
    | inr f ↦ rw f le
  ]

  -- The events seen after the loop, the last one first.
  abbrev over : List (TrackingEvent F) → List (TrackingEvent F) → List (TrackingEvent F)
  over [] seen = seen
  over (e ∷ es) seen = over es (e ∷ seen)

  scan-Seen :
      (es seen : List (TrackingEvent F)) (s : Option (TrackingEvent F) × ℕ)
      → s.1 ≤ u32_max
      → Seen seen s
      → Seen (over es seen) (scan es s)
  unfolding scan
  scan-Seen [] seen s le v = v
  scan-Seen (e ∷ es) seen s le v =
      scan-Seen es (e ∷ seen) (closer timestamp s (some e)) (closer-le s e le)
        (closer-Seen seen s e le v)

  All-over :
      (P : TrackingEvent F → Type 0) (es seen : List (TrackingEvent F))
      → All P (over es seen)
      → All P es × All P seen
  All-over P [] seen a = (tt, a)
  All-over P (e ∷ es) seen a = let (x, y) = All-over P es (e ∷ seen) a in ((y.0, x), y.1)

  Any-over :
      (P : TrackingEvent F → Type 0) (es seen : List (TrackingEvent F))
      → Any P (over es seen)
      → Any P es ⊎ Any P seen
  Any-over P [] seen a = inr a
  Any-over P (e ∷ es) seen a = elim (Any-over P es (e ∷ seen) a) [
    | inl x ↦ inl (inr x)
    | inr (inl x) ↦ inl (inl x)
    | inr (inr x) ↦ inr x
  ]

  scan-IsClosest : (es : List (TrackingEvent F)) → IsClosest es (scan es (none, u32_max)).0
  scan-IsClosest es = go (scan es (none, u32_max)) (
      scan-Seen es [] (none, u32_max) (omega arith)
        (record { least = tt; best = inl (refl, refl) }))
    where
      go : (s : Option (TrackingEvent F) × ℕ) → Seen (over es []) s → IsClosest es s.0
      go (b, d) v = elim v.best [
        | inl (p, m) ↦
            subst (IsClosest es) (sym p)
              (subst (λ n. All (λ x. n ≤ distance x) es) m (All-over _ es [] v.least).0)
        | inr (x, p, m, r, a) ↦ subst (IsClosest es) (sym p) (
          elim (Any-over _ es [] a) [ inl y ↦ y | inr y ↦ absurd y ],
          subst (λ n. All (λ x. n ≤ distance x) es) m (All-over _ es [] v.least).0,
          r,
        )
      ]

  IsClosest-comm :
      (p q : List (TrackingEvent F)) (r : Option (TrackingEvent F))
      → IsClosest (p ++ q) r
      → IsClosest (q ++ p) r
  IsClosest-comm p q none a = All-append _ q p (All-append_right _ p q a) (All-append_left _ p q a)
  IsClosest-comm p q (some e) (a, b, c) = (
    elim (Any-append _ p q a) [
      | inl x ↦ Any-append_right _ q p x
      | inr x ↦ Any-append_left _ q p x
    ],
    All-append _ q p (All-append_right _ p q b) (All-append_left _ p q b),
    c,
  )

  module _ (h : TrackingHistory F) (q : List (TrackingEvent F)) (v : Holds h q) where
    -- The events in the order of the slots.
    abbrev stored : List (TrackingEvent F)
    stored =
        if h.full
        then drop (length (drop h.head h.buffer)) q ++ take (length (drop h.head h.buffer)) q
        else q

    IsClosest-stored : (r : Option (TrackingEvent F)) → IsClosest stored r → IsClosest q r
    IsClosest-stored r = elim (Bool-cases h.full) [
      | inl f ↦ rw f λ c.
          subst (λ l. IsClosest l r) (take-append-drop _ q)
            (IsClosest-comm (drop _ q) (take _ q) r c)
      | inr f ↦ rw f λ c. c
    ]

    full_slots :
        h.full ≡ true
        → take h.capacity h.buffer
          ≡ map some
              (drop (length (drop h.head h.buffer)) q ++ take (length (drop h.head h.buffer)) q)
    full_slots f =
        let n = length (drop h.head h.buffer) in
        let e = slots_full h q f v in
        take_all h.buffer h.capacity (omega (arith, v.room))
        ∙ sym (take-append-drop h.head h.buffer)
        ∙ sym
            (ap₂ ◌++◌ (drop-append (drop h.head h.buffer) _) (take-append (drop h.head h.buffer) _))
        ∙ ap (λ l. drop n l ++ take n l) e
        ∙ ap₂ ◌++◌ (drop-map some n q) (take-map some n q)
        ∙ sym (map-append some (drop n q) (take n q))

    stored_slots : take (if h.full then h.capacity else h.head) h.buffer ≡ map some stored
    stored_slots = elim (Bool-cases h.full) [
      | inl f ↦ ground (arith, full_slots f)
      | inr f ↦ ground (arith, slots_open h q f v)
    ]

    length-stored : length stored ≡ (if h.full then h.capacity else h.head)
    length-stored =
        sym (length-map-some stored)
        ∙ ap length (sym stored_slots)
        ∙ length-take (if h.full then h.capacity else h.head) h.buffer
        ∙ ground (arith, v.room, v.head_in)

  -- For a history that holds `q`, `get_closest` does not panic. It returns an event of `q` that is
  -- nearer than `u32::MAX` and such that no event of `q` is nearer; or it returns `None`, and every
  -- event of `q` is at the distance `u32::MAX` at least.
  pub get_closest-IsClosest :
      (h : TrackingHistory F) (q : List (TrackingEvent F))
      → Holds h q
      → (r : Option (TrackingEvent F)) × (get_closest h timestamp ≡ done r) × IsClosest q r
  unfolding get_closest
  get_closest-IsClosest h q v = (
    (scan (stored h q v) (none, u32_max)).0,
    closest_from-scan h.buffer (stored h q v) (if h.full then h.capacity else h.head) 0
        (none, u32_max) (stored_slots h q v) (length-stored h q v),
    IsClosest-stored h q v _ (scan-IsClosest (stored h q v)),
  )
