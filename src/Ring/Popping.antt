-- ===== src/Ring/Popping.antt =====
-- `pop` of engine/include/LockFreeRingBuffer.hpp.
use mynyra.Prelude.{
  ℕ, ◌<◌, ◌≡◌, ◌≢◌, refl, sym, ap, ◌∙◌, ◌⊎◌, subst, inl, inr, List, [], ◌∷◌, arith, ◌==◌, length,
  Bool-cases,
}
use mynyra.Ring.Buffer.{Ring, Producer, Consumer, Event, increment, consume, items}
use mynyra.Ring.Positions.{advance, passed, increment-lt}
use mynyra.Ring.Invariant.{
  Answer, has_none, Serves, rests, answers, Producing, IsRing, next_consumer, some_in, equal,
  are_apart,
}

no_item : ¬ (0 < 0)
no_item h = omega (arith, h)

module _ {T : Type 0} (capacity : ℕ) where
  abbrev pub Consumed : List T → Producer T → List (Event T) × Ring T × Consumer T → Type 0
  Consumed q p (events, r, c) =
      (next : List T) × Serves capacity q events next × IsRing capacity r p c next

  empty_or : (q : List T) → (q ≡ []) ⊎ (0 < length q)
  empty_or [] = inl refl
  empty_or (x ∷ q) = inr (omega arith)

  -- The tail meets the head when there is no item.
  none_left :
      (q : List T) (r : Ring T)
      → r.tail < capacity
      → length q < capacity
      → r.head ≡ advance capacity (length q) r.tail
      → r.tail ≡ r.head
      → q ≡ []
  none_left q r a b ahead e = elim (empty_or q) [
    | inl none ↦ none
    | inr held ↦
        let (m, count) = some_in capacity q held in
        elim (passed capacity m r.tail r.head a (omega (arith, count))
          (ahead ∙ ap (λ (n : ℕ). advance capacity n r.tail) count) e) [ ]
  ]

  some_left :
      (q : List T) (r : Ring T)
      → r.head ≡ advance capacity (length q) r.tail
      → r.tail ≢ r.head
      → 0 < length q
  unfolding advance
  some_left [] r ahead apart = elim (apart (sym ahead)) [ ]
  some_left (x ∷ q) r ahead apart = omega arith

  first_same : {x y : T} {xs ys : List T} → (x ∷ xs) ≡ y ∷ ys → (x ≡ y) × (xs ≡ ys)
  first_same e = (cc e, cc e)

  found_none : (q : List T) → q ≡ [] → Answer capacity q Event.found_empty q
  found_none [] e = has_none
  found_none (x ∷ q) e = cc

  -- One item less is as good for the producer.
  less-Producing :
      (r : Ring T) (q : List T) (x : T) (next : ℕ) (p : Producer T)
      → Producing capacity r (x ∷ q) p
      → Producing capacity (record r { tail = next }) q p
  less-Producing r q x next Producer.push_idle h = tt
  less-Producing r q x next (Producer.has_head v head) h = h
  less-Producing r q x next (Producer.has_room v head after) (a, b, c) = (a, b, omega (arith, c))
  less-Producing r q x next (Producer.has_stored v head after) (a, b, c, d) =
      (a, b, omega (arith, c), d)

  pub consume-Consumed :
      (r : Ring T) (p : Producer T) (c : Consumer T) (q : List T)
      → IsRing capacity r p c q
      → Consumed q p (consume capacity r c)
  unfolding consume items advance
  consume-Consumed r p Consumer.pop_idle q h = (q, rests, next_consumer capacity h (refl))
  consume-Consumed r p (Consumer.has_tail tail) q h = elim (Bool-cases (tail == r.head)) [
    | inl same ↦
        let none = none_left q r h.tail_in h.fits h.ahead (sym h.consuming ∙ equal _ _ same) in
        rw same (q, answers (found_none q none) rests, next_consumer capacity h (tt))
    | inr apart ↦
        let held =
          some_left q r h.ahead (λ (e : r.tail ≡ r.head). are_apart _ _ apart (h.consuming ∙ e)) in
        rw apart (q, rests, next_consumer capacity h ((h.consuming, held)))
  ]
  consume-Consumed r p (Consumer.has_item tail) q h =
      (q, rests, next_consumer capacity h ((h.consuming.0, h.consuming.1, refl)))
  consume-Consumed r p (Consumer.has_value v tail) [] h = elim (no_item h.consuming.1) [ ]
  consume-Consumed r p (Consumer.has_value v tail) (x ∷ q) h =
      let (same, held, value) = h.consuming in
      let (first, rest) = first_same h.stored in
      let front : x ≡ v = sym first ∙ ap r.data_at (sym same) ∙ value in
      let at : increment capacity r.tail ≡ increment capacity tail =
        ap (increment capacity) (sym same) in
      (
        q,
        answers
            (subst (λ (y : T). Answer capacity (x ∷ q) (Event.popped y) q) front (Answer.removes x))
            rests,
        record {
          tail_in = increment-lt capacity tail (omega (arith, same, h.tail_in));
          fits = omega (arith, h.fits);
          ahead = h.ahead ∙ ap (advance capacity (length q)) at;
          stored = sym (ap (items capacity r.data_at (length q)) at) ∙ rest;
          producing = less-Producing r q x (increment capacity tail) p h.producing;
          consuming = tt;
        },
      )
