-- ===== src/Frames/Reassembly.antt =====
-- Frames come out of engine/include/providers/ctrader/CTraderFrameDecoder.hpp as they went in.
use mathlib.Core.List.{append-nil, append_assoc}
use mynyra.Prelude.{
  ℕ, suc, zero, ◌+◌, ◌-◌, ◌*◌, ◌^◌, ◌≤◌, ◌<◌, ◌≡◌, refl, sym, ap, ◌∙◌, true, false, ◌||◌, List, [],
  ◌∷◌, ◌++◌, arith, ltb, ◌==◌, length, drop, Bool-cases, inl, inr, length-append, length-drop, All,
}
use mynyra.Frames.Decoder.{Result, CTraderFrameDecoder, new_decoder, append, next}
use mynyra.Frames.Chunks.{
  encode, stream, join, drain, gathered, receive, IsFrame, append-split, next_ready, next_waits,
}

-- The buffer holds no whole frame of the stream that it begins.
abbrev pub Waits : List (List ℕ) → List ℕ → Type 0
Waits [] buffer = length buffer ≡ 0
Waits (frame ∷ frames) buffer = length buffer < 4 + length frame

nothing_left : (xs ys : List ℕ) → xs ++ ys ≡ [] → length xs ≡ 0
nothing_left [] ys e = refl
nothing_left (x ∷ xs) ys e = ground arith

next_empty :
    (d : CTraderFrameDecoder) → length d.buffer ≡ 0 → next true d ≡ (Result.need_more, [], d)
unfolding next
next_empty d e = let short : ltb (length d.buffer) 4 ≡ true = ground arith in rw short refl

drain_step :
    (fuel : ℕ) (d : CTraderFrameDecoder) (called : Result × List ℕ × CTraderFrameDecoder)
    → next true d ≡ called
    → drain (suc fuel) d ≡ gathered called (drain fuel called.2)
unfolding drain
drain_step fuel d called e =
    ap (λ (t : Result × List ℕ × CTraderFrameDecoder). gathered t (drain fuel t.2)) e

-- A decoder whose buffer begins a stream gives the frames that it holds, and no more.
pub drain-stream :
    (fuel : ℕ) (frames : List (List ℕ)) (d : CTraderFrameDecoder) (rest : List ℕ)
    → d.maximum_frame_bytes < 2 ^ 32
    → All (IsFrame d.maximum_frame_bytes) frames
    → d.buffer ++ rest ≡ stream frames
    → length d.buffer < fuel
    → (done : List (List ℕ)) × (left : List (List ℕ)) × (buffer : List ℕ) × (done ++ left ≡ frames)
      × All (IsFrame d.maximum_frame_bytes) left
      × (drain fuel d ≡ (done, record d { buffer = buffer }))
      × (buffer ++ rest ≡ stream left)
      × Waits left buffer
unfolding drain
drain-stream zero frames d rest wide valid e h = ground arith
drain-stream (suc fuel) [] d rest wide valid e h =
    let none_left = nothing_left d.buffer rest e in
    ([], [], d.buffer, refl, tt, drain_step fuel d _ (next_empty d none_left), e, none_left)
drain-stream (suc fuel) (frame ∷ frames) d rest wide (valid, valids) e h =
    elim (Bool-cases (ltb (length d.buffer) (4 + length frame))) [
      | inl short ↦ (
        [],
        frame ∷ frames,
        d.buffer,
        refl,
        (valid, valids),
        drain_step fuel d _ (next_waits frame rest (stream frames) d valid wide e (ground arith)),
        e,
        ground arith,
      )
      | inr whole ↦
          let size : length (encode frame) ≤ length d.buffer = ground arith in
          let (first, second) = append-split (encode frame) d.buffer rest (stream frames) e size in
          let after = drop (length (encode frame)) d.buffer in
          let ready = next_ready frame after d valid wide first in
          let (done, left, buffer, all, lefts, drained, joined, waits) =
            drain-stream fuel frames (record d { buffer = after }) rest wide valids second
              (ground (arith, length-drop (length (encode frame)) d.buffer)) in
          (
            frame ∷ done,
            left,
            buffer,
            ap (◌∷◌ frame) all,
            lefts,
            drain_step fuel d _ ready
                ∙ ap (gathered (Result.frame_ready, frame, record d { buffer = after })) drained,
            joined,
            waits,
          )
    ]

-- What the buffer holds after the last chunk: nothing, where it is the whole rest of the stream.
all_done :
    (left : List (List ℕ)) (buffer : List ℕ)
    → buffer ++ [] ≡ stream left
    → Waits left buffer
    → (left ≡ []) × (buffer ≡ [])
all_done [] [] e w = (refl, refl)
all_done [] (b ∷ bs) e w = ground arith
all_done (frame ∷ frames) buffer e w =
    ground (
      arith,
      sym (ap length (append-nil buffer)) ∙ ap length e,
      length-append frame (stream frames),
    )

-- A chunk fits the buffer beside a frame that is not whole.
short-le :
    (maximum : ℕ) (left : List (List ℕ)) (buffer : List ℕ)
    → All (IsFrame maximum) left
    → Waits left buffer
    → length buffer ≤ maximum + 3
short-le maximum [] buffer v w = omega arith
short-le maximum (frame ∷ frames) buffer ((p, q), vs) w = omega arith

append_fits :
    (chunk : List ℕ) (d : CTraderFrameDecoder)
    → length chunk + length d.buffer ≤ d.maximum_buffered_bytes
    → (append true chunk d).1 ≡ record d { buffer = d.buffer ++ chunk }
unfolding append
append_fits [] d h = ap (λ (b : List ℕ). record d { buffer = b }) (sym (append-nil d.buffer))
append_fits (b ∷ bs) d h =
    let fits : (ltb d.maximum_buffered_bytes (length (b ∷ bs))
          || ltb (d.maximum_buffered_bytes - length (b ∷ bs)) (length d.buffer))
        ≡ false =
      ground arith in
    let filled : (length (b ∷ bs) == 0) ≡ false = ground arith in rw (fits, filled) refl

receive-stream :
    (chunks frames : List (List ℕ)) (d : CTraderFrameDecoder)
    → d.maximum_frame_bytes < 2 ^ 32
    → d.maximum_buffered_bytes ≡ d.maximum_frame_bytes * 2 + 8
    → All (λ chunk. length chunk ≤ d.maximum_frame_bytes + 5) chunks
    → All (IsFrame d.maximum_frame_bytes) frames
    → d.buffer ++ join chunks ≡ stream frames
    → Waits frames d.buffer
    → receive chunks d ≡ (frames, record d { buffer = [] })
unfolding receive
receive-stream [] frames d wide room small valid e w =
    let (none_left, empty) = all_done frames d.buffer e w in rw (none_left, empty) refl
receive-stream (chunk ∷ chunks) frames d wide room (small, smalls) valid e w =
    let start = record d { buffer = d.buffer ++ chunk } in
    let appended : (append true chunk d).1 ≡ start =
      append_fits chunk d (omega (arith, short-le d.maximum_frame_bytes frames d.buffer valid w)) in
    let (done, left, buffer, all, lefts, drained, joined, waits) =
      drain-stream (length start.buffer + 1) frames start (join chunks) wide valid
        (append_assoc d.buffer chunk (join chunks) ∙ e) (omega arith) in
    let later =
      receive-stream chunks left (record d { buffer = buffer }) wide room smalls lefts joined
        waits in
    rw (appended, drained, later) (ap (λ (f : List (List ℕ)). (f, record d { buffer = [] })) all)

-- For a maximum below 2 ^ 32, a stream of frames, each of 1 to maximum bytes, that arrives at a
-- new decoder in chunks of at most maximum + 5 bytes, cut anywhere, comes out as the same frames
-- in the same order, with next called until it waits after each chunk; nothing is refused and the
-- buffer ends empty.
pub receive_new :
    (maximum : ℕ) (frames chunks : List (List ℕ))
    → maximum < 2 ^ 32
    → All (IsFrame maximum) frames
    → All (λ chunk. length chunk ≤ maximum + 5) chunks
    → join chunks ≡ stream frames
    → receive chunks (new_decoder maximum) ≡ (frames, new_decoder maximum)
unfolding new_decoder
receive_new maximum frames chunks wide valid small e =
    receive-stream chunks frames (new_decoder maximum) wide (ground arith) small valid e
      (starts frames)
  where
    starts : (frames : List (List ℕ)) → Waits frames []
    starts [] = refl
    starts (frame ∷ frames) = omega arith
