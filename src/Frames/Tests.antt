-- ===== src/Frames/Tests.antt =====
-- The theorems of the frame decoder at concrete streams.
use mynyra.Prelude.{ℕ, ◌≡◌, refl, true, false, List, [], ◌∷◌, arith}
use mynyra.Frames.Decoder.{CTraderFrameDecoder, next, new_decoder}
use mynyra.Frames.Chunks.{receive}
use mynyra.Frames.Soundness.{IsReady, next-IsReady}
use mynyra.Frames.Reassembly.{receive_new}
use mynyra.Frames.Bounds.{Call, appends, nexts, clears, run, IsBounded, run_new-IsBounded}

abbrev frames : List (List ℕ)
frames = (104 ∷ 105 ∷ []) ∷ (7 ∷ []) ∷ []

-- A header cut in two, and the end of one frame with the start of the next.
abbrev chunks : List (List ℕ)
chunks = (0 ∷ 0 ∷ 0 ∷ []) ∷ (2 ∷ 104 ∷ []) ∷ (105 ∷ 0 ∷ []) ∷ (0 ∷ 0 ∷ 1 ∷ 7 ∷ []) ∷ []

receive_new_example : receive chunks (new_decoder 16) ≡ (frames, new_decoder 16)
receive_new_example =
    receive_new 16 frames chunks (omega arith)
      ((omega arith, omega arith), ((omega arith, omega arith), tt))
      (omega arith, (omega arith, (omega arith, (omega arith, tt)))) refl

-- A chunk that is too long, and a frame whose allocation fails.
abbrev calls : List Call
calls =
    appends true (1 ∷ 2 ∷ 3 ∷ [])
    ∷ appends true (0 ∷ 0 ∷ 0 ∷ 1 ∷ 9 ∷ 9 ∷ 9 ∷ 9 ∷ 9 ∷ 9 ∷ 9 ∷ [])
    ∷ appends true (0 ∷ 0 ∷ 0 ∷ 1 ∷ 9 ∷ [])
    ∷ nexts false
    ∷ clears
    ∷ []

run_new-IsBounded_example : IsBounded 2 (run calls (new_decoder 2))
run_new-IsBounded_example = run_new-IsBounded 2 calls

-- Seven bytes behind a header that announces two.
abbrev filled : CTraderFrameDecoder
filled = record (new_decoder 16) { buffer = 0 ∷ 0 ∷ 0 ∷ 2 ∷ 104 ∷ 105 ∷ 0 ∷ [] }

next-IsReady_example : IsReady filled (next true filled)
next-IsReady_example = next-IsReady true filled
