-- ===== src/Frames/Bounds.antt =====
-- The bounds of the buffer of engine/include/providers/ctrader/CTraderFrameDecoder.hpp, and the soundness
-- of its frames.
use mynyra.Prelude.{
  ℕ, ◌+◌, ◌*◌, ◌≤◌, ◌≡◌, Bool, List, [], ◌∷◌, arith, length, length-append, length-drop,
}
use mynyra.Frames.Decoder.{CTraderFrameDecoder, new_decoder, clear, append, next, header_length}

-- A call of the decoder, with what the allocation does.
pub data Call : Type 0 where
  appends : Bool → List ℕ → Call
  nexts : Bool → Call
  clears : Call

unfoldable pub step : Call → CTraderFrameDecoder → CTraderFrameDecoder
step (appends allocates bytes) d = (append allocates bytes d).1
step (nexts allocates) d = (next allocates d).2
step clears d = clear d

unfoldable pub run : List Call → CTraderFrameDecoder → CTraderFrameDecoder
run [] d = d
run (c ∷ cs) d = run cs (step c d)

abbrev pub IsBounded : ℕ → CTraderFrameDecoder → Type 0
IsBounded maximum d =
    (d.maximum_frame_bytes ≡ maximum)
    × (d.maximum_buffered_bytes ≤ maximum * 2 + 8)
    × (length d.buffer ≤ d.maximum_buffered_bytes)

step-IsBounded :
    (maximum : ℕ) (c : Call) (d : CTraderFrameDecoder)
    → IsBounded maximum d
    → IsBounded maximum (step c d)
unfolding step append next
step-IsBounded maximum (appends a bytes) d h = ground (arith, length-append d.buffer bytes)
step-IsBounded maximum (nexts a) d h =
    ground (arith, length-drop (4 + header_length d.buffer) d.buffer)
step-IsBounded maximum clears d h = ground arith

run-IsBounded :
    (maximum : ℕ) (cs : List Call) (d : CTraderFrameDecoder)
    → IsBounded maximum d
    → IsBounded maximum (run cs d)
unfolding run
run-IsBounded maximum [] d h = h
run-IsBounded maximum (c ∷ cs) d h =
    run-IsBounded maximum cs (step c d) (step-IsBounded maximum c d h)

-- After any calls of append, next and clear on a new decoder, with any bytes and any failures of
-- allocation, the limits are unchanged and the buffer holds at most the buffer limit, which is at
-- most twice the maximum plus 8.
pub run_new-IsBounded :
    (maximum : ℕ) (cs : List Call) → IsBounded maximum (run cs (new_decoder maximum))
unfolding new_decoder
run_new-IsBounded maximum cs = run-IsBounded maximum cs (new_decoder maximum) (ground arith)
