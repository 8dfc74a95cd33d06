-- ===== src/Ring/Pushing.antt =====
-- `push` of engine/include/LockFreeRingBuffer.hpp.
use mynyra.Prelude.{
  ℕ, suc, ◌<◌, ◌≡◌, ◌≢◌, refl, sym, ap, ◌∙◌, inl, inr, List, [], ◌∷◌, ◌++◌, arith, ◌==◌, length,
  length-append, Bool-cases,
}
use mynyra.Ring.Buffer.{Ring, Producer, Consumer, Event, increment, write, produce, items}
use mynyra.Ring.Positions.{
  advance, increment-advance, next-room, next-full, items-suc, items-write, passed,
}
use mynyra.Ring.Invariant.{
  Answer, Serves, rests, answers, Consuming, IsRing, next_producer, some_in, equal, are_apart,
}

written : {T : Type 0} → (data_at : ℕ → T) (head : ℕ) (v : T) → write data_at head v head ≡ v
unfolding write
written data_at head v = ground arith

module _ {T : Type 0} (capacity : ℕ) where
  abbrev pub Produced : List T → Consumer T → List (Event T) × Ring T × Producer T → Type 0
  Produced q c (events, r, p) =
      (next : List T) × Serves capacity q events next × IsRing capacity r p c next

  next_head :
      (r : Ring T) (q : List T) (head : ℕ)
      → head ≡ r.head
      → r.head ≡ advance capacity (length q) r.tail
      → increment capacity head ≡ advance capacity (suc (length q)) r.tail
  next_head r q head e ahead =
      ap (increment capacity) (e ∙ ahead) ∙ increment-advance capacity (length q) r.tail

  -- A write at the head changes nothing for the consumer.
  write-Consuming :
      (r : Ring T) (q : List T) (v : T) (head : ℕ) (c : Consumer T)
      → r.tail < capacity
      → length q < capacity
      → head ≡ advance capacity (length q) r.tail
      → Consuming capacity r q c
      → Consuming capacity (record r { data_at = write r.data_at head v }) q c
  unfolding write
  write-Consuming r q v head Consumer.pop_idle a b e h = h
  write-Consuming r q v head (Consumer.has_tail tail) a b e h = h
  write-Consuming r q v head (Consumer.has_item tail) a b e h = h
  write-Consuming r q v head (Consumer.has_value w tail) a b e (same, held, value) =
      let (m, count) = some_in capacity q held in
      let apart : r.tail ≢ head =
        passed capacity m r.tail head a (omega (arith, count))
          (e ∙ ap (λ (n : ℕ). advance capacity n r.tail) count) in
      (same, held, ground (arith, apart, same, value))

  -- One item more is as good for the consumer.
  more-Consuming :
      (r : Ring T) (q : List T) (v : T) (next : ℕ) (c : Consumer T)
      → Consuming capacity r q c
      → Consuming capacity (record r { head = next }) (q ++ v ∷ []) c
  more-Consuming r q v next Consumer.pop_idle h = tt
  more-Consuming r q v next (Consumer.has_tail tail) h = h
  more-Consuming r q v next (Consumer.has_item tail) (a, b) =
      (a, omega (arith, length-append q (v ∷ [])))
  more-Consuming r q v next (Consumer.has_value w tail) (a, b, e) =
      (a, omega (arith, length-append q (v ∷ [])), e)

  pub produce-Produced :
      (value : T) (r : Ring T) (p : Producer T) (c : Consumer T) (q : List T)
      → IsRing capacity r p c q
      → Produced q c (produce capacity value r p)
  unfolding produce
  produce-Produced value r Producer.push_idle c q h = (q, rests, next_producer capacity h (refl))
  produce-Produced value r (Producer.has_head v head) c q h =
      let at = next_head r q head h.producing h.ahead in
      elim (Bool-cases (increment capacity head == r.tail)) [
        | inl same ↦
            let full =
              next-full capacity (length q) r.tail h.tail_in h.fits (sym at ∙ equal _ _ same) in
            rw same (q, answers (Answer.refuses v full) rests, next_producer capacity h (tt))
        | inr apart ↦
            let room =
              next-room capacity (length q) r.tail h.tail_in h.fits
                (λ (e : advance capacity (suc (length q)) r.tail ≡ r.tail).
                  are_apart _ _ apart (at ∙ e)) in
            rw apart (q, rests, next_producer capacity h ((h.producing, refl, room)))
      ]
  produce-Produced value r (Producer.has_room v head next) c q h =
      let (same, after, room) = h.producing in
      let at = same ∙ h.ahead in
      (
        q,
        rests,
        record {
          tail_in = h.tail_in;
          fits = h.fits;
          ahead = h.ahead;
          stored =
              items-write capacity r.data_at v (length q) r.tail head h.tail_in h.fits at
              ∙ h.stored;
          producing = (same, after, room, written r.data_at head v);
          consuming = write-Consuming r q v head c h.tail_in h.fits at h.consuming;
        },
      )
  produce-Produced value r (Producer.has_stored v head next) c q h =
      let (same, after, room, value) = h.producing in
      let count : length (q ++ v ∷ []) ≡ suc (length q) = omega (arith, length-append q (v ∷ [])) in
      let ends = ap (λ (d : T). q ++ d ∷ []) (ap r.data_at (sym (same ∙ h.ahead)) ∙ value) in
      (
        q ++ v ∷ [],
        answers (Answer.accepts v room) rests,
        record {
          tail_in = h.tail_in;
          fits = omega (arith, count, room);
          ahead =
              after
              ∙ next_head r q head same h.ahead
              ∙ ap (λ (n : ℕ). advance capacity n r.tail) (sym count);
          stored =
              ap (λ (n : ℕ). items capacity r.data_at n r.tail) count
              ∙ items-suc capacity r.data_at (length q) r.tail
              ∙ ap (λ (xs : List T). xs ++ r.data_at (advance capacity (length q) r.tail) ∷ [])
                  h.stored
              ∙ ends;
          producing = tt;
          consuming = more-Consuming r q v next c h.consuming;
        },
      )
