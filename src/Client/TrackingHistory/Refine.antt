-- ===== src/Client/TrackingHistory/Refine.antt =====
-- A history of capacity `n` holds the last `n` events pushed, oldest first.
use odyssey_desktop.Prelude.{
  ℕ, zero, suc, ◌+◌, ◌-◌, ◌%◌, ◌≤◌, ◌<◌, ◌≡◌, refl, sym, ap, subst, ◌∙◌, inl, inr, Bool, true,
  false, Option, none, some, List, [], ◌∷◌, ◌++◌, map, arith, if◌then◌else◌, length, set, take,
  drop, last_n, done, Bool-cases, take-suc-set, drop-suc-set, drop-cons, take_all, length-set,
  length-replicate, length-append, length-take, length-drop, last_n-last_n, drop_all,
}
use mathlib.Core.List.{append-nil, append_assoc}
use native.Mathlib.Nat.{mod-eq_of_lt, mod_self}
use native.Mathlib.Decide.{dec_lt}
use odyssey_desktop.Common.Events.{TrackingEvent}
use odyssey_desktop.Client.TrackingHistory.{TrackingHistory, new, push, push_all}

module _ {F : Type 0} where
  -- The slots in the order of the pushes.
  abbrev pub slots : TrackingHistory F → List (Option (TrackingEvent F))
  slots h = if h.full then drop h.head h.buffer ++ take h.head h.buffer else take h.head h.buffer

  -- `h` has one slot for each event up to its capacity, and its used slots hold `q`.
  pub record Holds (h : TrackingHistory F) (q : List (TrackingEvent F)) : Type 0 where
    pub slots_hold : slots h ≡ map some q
    pub room : length h.buffer ≡ h.capacity
    pub head_in : h.head < h.capacity

  pub length-map-some : (q : List (TrackingEvent F)) → length (map some q) ≡ length q
  length-map-some [] = refl
  length-map-some (x ∷ q) = ap suc (length-map-some q)

  map-some-append : (q r : List (TrackingEvent F)) → map some (q ++ r) ≡ map some q ++ map some r
  map-some-append [] r = refl
  map-some-append (x ∷ q) r = ap (◌∷◌ (some x)) (map-some-append q r)

  drop-map-some : (n : ℕ) (q : List (TrackingEvent F)) → map some (drop n q) ≡ drop n (map some q)
  drop-map-some zero q = refl
  drop-map-some (suc n) [] = refl
  drop-map-some (suc n) (x ∷ q) = drop-map-some n q

  -- A new history holds nothing.
  pub new-Holds : (capacity : ℕ) → 0 < capacity → Holds (new {F = F} capacity) []
  unfolding new
  new-Holds capacity h = record {
    slots_hold = refl;
    room = length-replicate capacity none;
    head_in = h;
  }

  -- What `push` leaves, its modulus computed.
  pushed : TrackingHistory F → TrackingEvent F → ℕ → Bool → TrackingHistory F
  pushed h e head full = record h {
    buffer = set h.buffer h.head (some e);
    head = head;
    full = full;
  }

  push_inside :
      (h : TrackingHistory F) (e : TrackingEvent F)
      → h.head + 1 < h.capacity
      → h.capacity ≡ length h.buffer
      → push h e ≡ done (pushed h e (suc h.head) h.full)
  unfolding push pushed
  push_inside h e lt r = ground (arith, mod-eq_of_lt lt)

  push_wrap :
      (h : TrackingHistory F) (e : TrackingEvent F)
      → h.head + 1 ≡ h.capacity
      → h.capacity ≡ length h.buffer
      → push h e ≡ done (pushed h e 0 true)
  unfolding push pushed
  push_wrap h e lt r = ground (arith, wrap)
    where
      wrap : (h.head + 1) % h.capacity ≡ 0
      wrap = rw lt (mod_self h.capacity)

  last_n_all : (n : ℕ) (q : List (TrackingEvent F)) → length q ≤ n → last_n n q ≡ q
  last_n_all n q h = rw (let e : length q - n ≡ 0 = omega arith in e)

  last_n_full :
      (n : ℕ) (q : List (TrackingEvent F)) (e : TrackingEvent F)
      → length q ≡ n
      → last_n n (q ++ e ∷ []) ≡ drop 1 (q ++ e ∷ [])
  last_n_full n q e h =
      rw (let d : length (q ++ e ∷ []) - n ≡ 1 = omega (arith, length-append q (e ∷ [])) in d)

  -- The queue after a push while there was room.
  grown :
      (q : List (TrackingEvent F)) (e : TrackingEvent F) (n : ℕ)
      → length q < n
      → map some (last_n n (q ++ e ∷ [])) ≡ map some q ++ some e ∷ []
  grown q e n h =
      ap (map some) (last_n_all n (q ++ e ∷ []) (omega (arith, length-append q (e ∷ []))))
      ∙ map-some-append q (e ∷ [])

  -- The queue after a push that drops its oldest event.
  shifted :
      (q : List (TrackingEvent F)) (e : TrackingEvent F) (n : ℕ) {x : Option (TrackingEvent F)}
      {rest : List (Option (TrackingEvent F))}
      → length q ≡ n
      → map some q ≡ x ∷ rest
      → map some (last_n n (q ++ e ∷ [])) ≡ rest ++ some e ∷ []
  shifted q e n h m =
      ap (map some) (last_n_full n q e h)
      ∙ drop-map-some 1 (q ++ e ∷ [])
      ∙ ap (drop 1) (map-some-append q (e ∷ []) ∙ ap (λ l. l ++ some e ∷ []) m)

  module _ (h : TrackingHistory F) (q : List (TrackingEvent F)) where
    pub slots_full :
        h.full ≡ true → Holds h q → drop h.head h.buffer ++ take h.head h.buffer ≡ map some q
    slots_full f v = ground (arith, v.slots_hold)

    pub slots_open : h.full ≡ false → Holds h q → take h.head h.buffer ≡ map some q
    slots_open f v = ground (arith, v.slots_hold)

    pub length_full : h.full ≡ true → Holds h q → length q ≡ h.capacity
    length_full f v = omega (
      arith,
      ap length (slots_full f v),
      length-map-some q,
      length-append (drop h.head h.buffer) (take h.head h.buffer),
      length-drop h.head h.buffer,
      length-take h.head h.buffer,
      v.room,
      v.head_in,
    )

    pub length_open : h.full ≡ false → Holds h q → length q ≡ h.head
    length_open f v = omega (
      arith,
      ap length (slots_open f v),
      length-map-some q,
      length-take h.head h.buffer,
      v.room,
      v.head_in,
    )

  module _ (h : TrackingHistory F) (q : List (TrackingEvent F)) (e : TrackingEvent F) where
    -- The slots before the write position, and the new event behind them.
    written :
        Holds h q
        → take (suc h.head) (set h.buffer h.head (some e)) ≡ take h.head h.buffer ++ some e ∷ []
    written v = take-suc-set h.buffer h.head (some e) (omega arith)

    length-written : Holds h q → length (set h.buffer h.head (some e)) ≡ h.capacity
    length-written v = length-set h.buffer h.head (some e) ∙ v.room

    -- In a full history the slot at the write position holds the oldest event.
    oldest :
        h.full ≡ true
        → Holds h q
        → (x : Option (TrackingEvent F)) × (map some q
            ≡ x ∷ drop (suc h.head) h.buffer ++ take h.head h.buffer)
    oldest f v =
        let (x, d, _) = drop-cons h.buffer h.head (omega (arith, v.room, v.head_in)) in
        (x, sym (slots_full h q f v) ∙ ap (λ l. l ++ take h.head h.buffer) d)

    Pushed : TrackingHistory F → Type 0
    Pushed h' = Holds h' (last_n h.capacity (q ++ e ∷ []))

    open_inside :
        h.full ≡ false
        → h.head + 1 < h.capacity
        → Holds h q
        → Pushed (pushed h e (suc h.head) h.full)
    unfolding Pushed pushed
    open_inside f lt v = record {
      slots_hold = ground (
        arith,
        written v,
        slots_open h q f v,
        grown q e h.capacity (omega (arith, length_open h q f v)),
      );
      room = length-written v;
      head_in = omega arith;
    }

    full_inside :
        h.full ≡ true
        → h.head + 1 < h.capacity
        → Holds h q
        → Pushed (pushed h e (suc h.head) h.full)
    unfolding Pushed pushed
    full_inside f lt v = record {
      slots_hold = ground (
        arith,
        written v,
        drop-suc-set h.buffer h.head (some e),
        append_assoc (drop (suc h.head) h.buffer) (take h.head h.buffer) (some e ∷ []),
        let (x, m) = oldest f v in shifted q e h.capacity (length_full h q f v) m,
      );
      room = length-written v;
      head_in = omega arith;
    }

    whole :
        h.head + 1 ≡ h.capacity
        → Holds h q
        → set h.buffer h.head (some e) ++ [] ≡ take h.head h.buffer ++ some e ∷ []
    whole lt v =
        append-nil _
        ∙ sym
            (take_all (set h.buffer h.head (some e)) (suc h.head) (omega (arith, length-written v)))
        ∙ written v

    open_wrap : h.full ≡ false → h.head + 1 ≡ h.capacity → Holds h q → Pushed (pushed h e 0 true)
    unfolding Pushed pushed
    open_wrap f lt v = record {
      slots_hold = ground (
        arith,
        whole lt v,
        slots_open h q f v,
        grown q e h.capacity (omega (arith, length_open h q f v)),
      );
      room = length-written v;
      head_in = omega arith;
    }

    full_wrap : h.full ≡ true → h.head + 1 ≡ h.capacity → Holds h q → Pushed (pushed h e 0 true)
    unfolding Pushed pushed
    full_wrap f lt v = record {
      slots_hold = ground (
        arith,
        whole lt v,
        drop_all h.buffer (suc h.head) (omega (arith, v.room)),
        let (x, m) = oldest f v in shifted q e h.capacity (length_full h q f v) m,
      );
      room = length-written v;
      head_in = omega arith;
    }

    Pushed-cases :
        Holds h q
        → (h' : TrackingHistory F) × (push h e ≡ done h') × Pushed h' × (h'.capacity ≡ h.capacity)
    unfolding Pushed pushed
    Pushed-cases v = elim (dec_lt (h.head + 1) h.capacity) [
      | yes lt ↦ (pushed h e (suc h.head) h.full, push_inside h e lt (sym v.room), inside lt, refl)
      | no ge ↦
          (pushed h e 0 true, push_wrap h e (omega arith) (sym v.room), wrapped (omega arith), refl)
    ]
      where
        inside : h.head + 1 < h.capacity → Pushed (pushed h e (suc h.head) h.full)
        inside lt = elim (Bool-cases h.full) [
          | inl f ↦ full_inside f lt v
          | inr f ↦ open_inside f lt v
        ]

        wrapped : h.head + 1 ≡ h.capacity → Pushed (pushed h e 0 true)
        wrapped eq = elim (Bool-cases h.full) [
          | inl f ↦ full_wrap f eq v
          | inr f ↦ open_wrap f eq v
        ]

  -- A push does not panic, and leaves the last `capacity` events of what was held and the new one.
  pub push-Holds :
      (h : TrackingHistory F) (q : List (TrackingEvent F)) (e : TrackingEvent F)
      → Holds h q
      → (h' : TrackingHistory F) × (push h e ≡ done h')
        × Holds h' (last_n h.capacity (q ++ e ∷ []))
        × (h'.capacity ≡ h.capacity)
  unfolding Pushed
  push-Holds h q e v = Pushed-cases h q e v

  push_all-Holds :
      (events : List (TrackingEvent F)) (h : TrackingHistory F) (q : List (TrackingEvent F))
      → Holds h q
      → length q ≤ h.capacity
      → (h' : TrackingHistory F) × (push_all h events ≡ done h')
        × Holds h' (last_n h.capacity (q ++ events))
  unfolding push_all
  push_all-Holds [] h q v le = (
    h,
    refl,
    subst (Holds h) (sym (ap (last_n h.capacity) (append-nil q) ∙ last_n_all h.capacity q le)) v,
  )
  push_all-Holds (e ∷ events) h q v le =
      let (h1, p, v1, c) = push-Holds h q e v in
      let (h2, p2, v2) =
        push_all-Holds events h1 (last_n h.capacity (q ++ e ∷ [])) v1
          (omega (arith, length-drop (length (q ++ e ∷ []) - h.capacity) (q ++ e ∷ []), c)) in
      (
        h2,
        rw p p2,
        subst (Holds h2)
            (ap (λ n. last_n n (last_n h.capacity (q ++ e ∷ []) ++ events)) c
              ∙ last_n-last_n h.capacity (q ++ e ∷ []) events
              ∙ ap (last_n h.capacity) (append_assoc q (e ∷ []) events))
            v2,
      )

  -- From a new history of positive capacity no sequence of pushes panics, and it holds the last
  -- `capacity` of the events pushed, oldest first.
  pub push_all-last_n :
      (capacity : ℕ) (events : List (TrackingEvent F))
      → 0 < capacity
      → (h : TrackingHistory F) × (push_all (new capacity) events ≡ done h)
        × Holds h (last_n capacity events)
  unfolding new
  push_all-last_n capacity events pos =
      push_all-Holds events (new capacity) [] (new-Holds capacity pos) (omega arith)
