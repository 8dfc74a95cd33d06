-- ===== src/Ring/Tests.antt =====
-- The theorem of the ring buffer at a run of both threads.
use mynyra.Prelude.{ℕ, List, [], ◌∷◌, arith}
use mynyra.Ring.Buffer.{Turn, run_turns, new_ring}
use mynyra.Ring.Refinement.{IsServed, run_turns_new-IsServed}

-- Three pushes into a buffer of three, of which the last is refused, and a pop in between.
abbrev turns : List (Turn ℕ)
turns =
    Turn.produces 7
    ∷ Turn.consumes
    ∷ Turn.produces 7
    ∷ Turn.produces 7
    ∷ Turn.produces 7
    ∷ Turn.consumes
    ∷ Turn.produces 8
    ∷ Turn.consumes
    ∷ Turn.produces 8
    ∷ Turn.produces 8
    ∷ Turn.produces 8
    ∷ Turn.produces 9
    ∷ Turn.produces 9
    ∷ Turn.consumes
    ∷ Turn.consumes
    ∷ []

run_turns_new-IsServed_example : IsServed 3 (run_turns 3 turns (new_ring 0))
run_turns_new-IsServed_example = run_turns_new-IsServed 3 0 turns (omega arith)
