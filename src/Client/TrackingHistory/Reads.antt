-- ===== src/Client/TrackingHistory/Reads.antt =====
-- `latest` of a history that holds `q` is the last event of `q`.
use native.Mathlib.Nat.{mod-eq_of_lt, mod-eq-sub-mod}
use native.Mathlib.Decide.{dec_lt}
use mathlib.Core.List.{append-nil}
use odyssey_desktop.Prelude.{
  ℕ, zero, suc, ◌+◌, ◌-◌, ◌%◌, ◌<◌, ◌≡◌, refl, sym, ap, ap₂, ◌∙◌, inl, inr, true, false, none, some,
  List, [], ◌∷◌, ◌++◌, map, arith, length, get_elem?, take, drop, done, unwrap, Bool-cases,
  get_elem?-take, get_elem?-append_right, length-drop,
}
use odyssey_desktop.Common.Events.{TrackingEvent}
use odyssey_desktop.Client.TrackingHistory.{TrackingHistory, latest}
use odyssey_desktop.Client.TrackingHistory.Refine.{
  Holds, slots_full, slots_open, length_full, length_open,
}

before : {head cap : ℕ} → 0 < head → head < cap → (head + cap - 1) % cap ≡ head - 1
before {head} {cap} h l =
    mod-eq-sub-mod {n = head + cap - 1} {m = cap} (omega arith)
    ∙ ap (λ n. n % cap) (omega arith)
    ∙ mod-eq_of_lt {n = head - 1} (omega arith)

before_start : {head cap : ℕ} → head ≡ 0 → head < cap → (head + cap - 1) % cap ≡ cap - 1
before_start {head} {cap} e l =
    ap (λ n. n % cap) (omega arith) ∙ mod-eq_of_lt {n = cap - 1} (omega arith)

module _ {F : Type 0} where
  unwrap-map-some :
      (q : List (TrackingEvent F)) (i : ℕ)
      → i < length q
      → unwrap (get_elem? (map some q) i) ≡ done (get_elem? q i)
  unwrap-map-some [] i h = absurd (omega arith)
  unwrap-map-some (x ∷ q) zero h = refl
  unwrap-map-some (x ∷ q) (suc i) h = unwrap-map-some q i (omega arith)

  get_elem?-empty : (q : List (TrackingEvent F)) (i : ℕ) → length q ≡ 0 → get_elem? q i ≡ none
  get_elem?-empty [] i h = refl
  get_elem?-empty (x ∷ q) i h = absurd (omega arith)

  module _ (h : TrackingHistory F) (q : List (TrackingEvent F)) (v : Holds h q) where
    abbrev ReadsLast : Type 0
    ReadsLast =
        get_elem? h.buffer ((h.head + h.capacity - 1) % h.capacity)
        ≡ get_elem? (map some q) (length q - 1)

    -- The slot that the code reads is the last one in the order of the pushes.
    last_slot_open : h.full ≡ false → 0 < h.head → ReadsLast
    last_slot_open f pos =
        ap (get_elem? h.buffer) (before pos v.head_in)
        ∙ sym (get_elem?-take h.head h.buffer (h.head - 1) (omega arith))
        ∙ ap₂ get_elem? (slots_open h q f v) (omega (arith, length_open h q f v))

    last_slot_full : h.full ≡ true → 0 < h.head → ReadsLast
    last_slot_full f pos =
        ap (get_elem? h.buffer) (before pos v.head_in)
        ∙ sym (get_elem?-take h.head h.buffer (h.head - 1) (omega arith))
        ∙ sym (
            get_elem?-append_right (drop h.head h.buffer) (take h.head h.buffer) (h.head - 1)
              (h.capacity - 1) (omega (arith, length-drop h.head h.buffer, v.room, v.head_in)))
        ∙ ap₂ get_elem? (slots_full h q f v) (omega (arith, length_full h q f v))

    last_slot_start : h.full ≡ true → h.head ≡ 0 → ReadsLast
    last_slot_start f e =
        ap (get_elem? h.buffer) (before_start e v.head_in)
        ∙ ap₂ get_elem? (whole ∙ slots_full h q f v) (omega (arith, length_full h q f v))
      where
        whole : h.buffer ≡ drop h.head h.buffer ++ take h.head h.buffer
        whole = sym (ap (λ n. drop n h.buffer ++ take n h.buffer) e ∙ append-nil h.buffer)

    read_last :
        0 < length q
        → ReadsLast
        → unwrap (get_elem? h.buffer ((h.head + h.capacity - 1) % h.capacity))
          ≡ done (get_elem? q (length q - 1))
    read_last pos r = ap unwrap r ∙ unwrap-map-some q (length q - 1) (omega arith)

  -- `latest` does not panic, and returns the event pushed last, or `None` if nothing is held.
  pub latest-last :
      (h : TrackingHistory F) (q : List (TrackingEvent F))
      → Holds h q
      → latest h ≡ done (get_elem? q (length q - 1))
  unfolding latest
  latest-last h q v = elim (Bool-cases h.full) [
    | inl f ↦ elim (dec_lt 0 h.head) [
      | yes pos ↦ ground (
        arith,
        f,
        v.head_in,
        read_last h q v (omega (arith, length_full h q f v, v.head_in))
            (last_slot_full h q v f pos),
      )
      | no start ↦ ground (
        arith,
        f,
        v.head_in,
        read_last h q v (omega (arith, length_full h q f v, v.head_in))
            (last_slot_start h q v f (omega arith)),
      )
    ]
    | inr f ↦ elim (dec_lt 0 h.head) [
      | yes pos ↦ ground (
        arith,
        f,
        v.head_in,
        read_last h q v (omega (arith, length_open h q f v)) (last_slot_open h q v f pos),
      )
      | no start ↦
          ground (arith, f, get_elem?-empty q (length q - 1) (omega (arith, length_open h q f v)))
    ]
  ]
