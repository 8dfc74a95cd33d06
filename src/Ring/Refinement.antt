-- ===== src/Ring/Refinement.antt =====
-- engine/include/LockFreeRingBuffer.hpp serves a bounded queue, however its threads interleave.
use mynyra.Prelude.{ℕ, ◌<◌, ◌≡◌, refl, sym, ap, ◌∙◌, subst, inl, inr, List, [], ◌∷◌, arith, length}
use mynyra.Ring.Buffer.{Event, System, Turn, size, take_turn, run_turns, items, contents, new_ring}
use mynyra.Ring.Positions.{advance, advance_cases}
use mynyra.Ring.Invariant.{Serves, Serves-append, rests, IsRing}
use mynyra.Ring.Pushing.{produce-Produced}
use mynyra.Ring.Popping.{consume-Consumed}

module _ {T : Type 0} (capacity : ℕ) where
  abbrev IsSystem : System T → List T → Type 0
  IsSystem s q = IsRing capacity s.ring s.producer s.consumer q

  abbrev Ran : List T → List (Event T) × System T → Type 0
  Ran q (events, s) = (next : List T) × Serves capacity q events next × IsSystem s next

  take_turn-Ran :
      (turn : Turn T) (s : System T) (q : List T) → IsSystem s q → Ran q (take_turn capacity turn s)
  unfolding take_turn
  take_turn-Ran (Turn.produces value) s q h =
      produce-Produced capacity value s.ring s.producer s.consumer q h
  take_turn-Ran Turn.consumes s q h = consume-Consumed capacity s.ring s.producer s.consumer q h

  run_turns-Ran :
      (turns : List (Turn T)) (s : System T) (q : List T)
      → IsSystem s q
      → Ran q (run_turns capacity turns s)
  unfolding run_turns
  run_turns-Ran [] s q h = (q, rests, h)
  run_turns-Ran (turn ∷ turns) s q h =
      let (next, first, at) = take_turn-Ran turn s q h in
      let (final, later, held) = run_turns-Ran turns (take_turn capacity turn s).1 next at in
      (final, Serves-append capacity first later, held)

  size-length : (s : System T) (q : List T) → IsSystem s q → size capacity s.ring ≡ length q
  unfolding size
  size-length s q h = elim (advance_cases capacity (length q) s.ring.tail h.tail_in h.fits) [
    | inl (a, b) ↦ ground (arith, h.ahead, a, h.tail_in, h.fits)
    | inr (a, b) ↦ ground (arith, h.ahead, a, b, h.tail_in, h.fits)
  ]

  contents_held : (s : System T) (q : List T) → IsSystem s q → contents capacity s.ring ≡ q
  unfolding contents
  contents_held s q h =
      ap (λ (n : ℕ). items capacity s.ring.data_at n s.ring.tail) (size-length s q h) ∙ h.stored

  -- What calls of both threads return is what a queue answers, and the buffer holds what the queue does.
  abbrev pub IsServed : List (Event T) × System T → Type 0
  IsServed (events, s) =
      Serves capacity [] events (contents capacity s.ring)
      × (size capacity s.ring ≡ length (contents capacity s.ring))

  -- For a capacity above 1, however the loads and stores of the producer and the consumer
  -- interleave from an empty buffer, what their calls return is what a queue answers that holds at
  -- most one item less than the capacity: a push is refused exactly when the queue is full, a pop
  -- finds nothing exactly when it is empty, items leave in the order in which they came, and at
  -- the end the buffer holds what the queue does and size counts it.
  pub run_turns_new-IsServed :
      (value : T) (turns : List (Turn T))
      → 1 < capacity
      → IsServed (run_turns capacity turns (new_ring value))
  unfolding items advance
  run_turns_new-IsServed value turns h =
      let start : IsSystem (new_ring value) [] = record {
        tail_in = omega arith;
        fits = omega arith;
        ahead = refl;
        stored = refl;
        producing = tt;
        consuming = tt;
      } in
      let (final, served, held) = run_turns-Ran turns (new_ring value) [] start in
      let s = (run_turns capacity turns (new_ring value)).1 in
      let same = contents_held s final held in
      (
        subst (λ (q : List T). Serves capacity [] (run_turns capacity turns (new_ring value)).0 q)
            (sym same) served,
        size-length s final held ∙ ap length (sym same),
      )
