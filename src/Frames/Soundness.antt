-- ===== src/Frames/Soundness.antt =====
-- The frames that engine/include/providers/ctrader/CTraderFrameDecoder.hpp gives.
use mynyra.Prelude.{
  ℕ, zero, suc, ◌+◌, ◌≤◌, ◌<◌, ◌≡◌, refl, ap, ◌∙◌, Bool, true, false, ◌||◌, List, [], ◌∷◌, ◌++◌,
  arith, ltb, ◌==◌, if◌then◌else◌, length, take, drop, Bool-cases, inl, inr, length-drop,
}
use mynyra.Frames.Decoder.{Result, CTraderFrameDecoder, clear, next, header_length}

take-drop : (n : ℕ) (xs : List ℕ) → take n xs ++ drop n xs ≡ xs
take-drop zero xs = refl
take-drop (suc n) [] = refl
take-drop (suc n) (x ∷ xs) = ap (◌∷◌ x) (take-drop n xs)

drop_more : (m n k : ℕ) (xs : List ℕ) → k ≡ m + n → drop k xs ≡ drop n (drop m xs)
drop_more zero n k xs e = (let same : k ≡ n = omega arith in ap (λ (t : ℕ). drop t xs) same)
drop_more (suc m) n zero xs e = ground arith
drop_more (suc m) zero (suc k) [] e = refl
drop_more (suc m) (suc n) (suc k) [] e = refl
drop_more (suc m) n (suc k) (x ∷ xs) e = drop_more m n k xs (omega arith)

length-take : (n : ℕ) (xs : List ℕ) → n ≤ length xs → length (take n xs) ≡ n
length-take zero xs h = refl
length-take (suc n) [] h = ground arith
length-take (suc n) (x ∷ xs) h = ap suc (length-take n xs (omega arith))

abbrev pub IsReady : CTraderFrameDecoder → Result × List ℕ × CTraderFrameDecoder → Type 0
IsReady d (Result.frame_ready, frame, after) =
    (0 < length frame)
    × (length frame ≤ d.maximum_frame_bytes)
    × (length frame ≡ header_length d.buffer)
    × (take 4 d.buffer ++ (frame ++ after.buffer) ≡ d.buffer)
IsReady d (Result.need_more, frame, after) = (frame ≡ []) × (after.buffer ≡ d.buffer)
IsReady d (Result.malformed, frame, after) = (frame ≡ []) × (after.buffer ≡ [])
IsReady d (Result.resource_exhausted, frame, after) = (frame ≡ []) × (after.buffer ≡ [])

ready_lem :
    (d : CTraderFrameDecoder) (size : ℕ)
    → size ≡ header_length d.buffer
    → (size == 0 || ltb d.maximum_frame_bytes size) ≡ false
    → ltb (length d.buffer) (4 + size) ≡ false
    → IsReady d (
      Result.frame_ready,
      take size (drop 4 d.buffer),
      record d { buffer = drop (4 + size) d.buffer },
    )
ready_lem d size e valid whole =
    let rest = drop 4 d.buffer in
    let room : size ≤ length rest = ground (arith, length-drop 4 d.buffer) in
    let taken = length-take size rest room in
    (
      ground (arith, taken),
      ground (arith, taken),
      taken ∙ e,
      ap (λ (t : List ℕ). take 4 d.buffer ++ (take size rest ++ t))
            (drop_more 4 size (4 + size) d.buffer refl)
          ∙ ap (λ (t : List ℕ). take 4 d.buffer ++ t) (take-drop size rest)
          ∙ take-drop 4 d.buffer,
    )

-- For every buffer, a frame that next gives is not empty, at most the maximum long and as long as
-- the header says, and the header, the frame and what stays in the buffer are the buffer as it
-- was; where next waits the frame is empty and the buffer as it was, and after a malformed header
-- or a failed allocation both are empty.
pub next-IsReady : (allocates : Bool) (d : CTraderFrameDecoder) → IsReady d (next allocates d)
unfolding next
next-IsReady allocates d = elim (Bool-cases (ltb (length d.buffer) 4)) [
  | inl short ↦ rw short (refl, refl)
  | inr four ↦
      elim (Bool-cases
        (header_length d.buffer == 0 || ltb d.maximum_frame_bytes (header_length d.buffer))) [
          | inl bad ↦ rw (four, bad) (refl, refl)
          | inr valid ↦ elim (Bool-cases (ltb (length d.buffer) (4 + header_length d.buffer))) [
            | inl partial ↦ rw (four, valid, partial) (refl, refl)
            | inr whole ↦ rw (four, valid, whole) (last allocates valid whole)
          ]
        ]
]
  where
    last :
        (b : Bool)
        → (header_length d.buffer == 0 || ltb d.maximum_frame_bytes (header_length d.buffer))
          ≡ false
        → ltb (length d.buffer) (4 + header_length d.buffer) ≡ false
        → IsReady d (
            if b
            then (
              Result.frame_ready,
              take (header_length d.buffer) (drop 4 d.buffer),
              record d { buffer = drop (4 + header_length d.buffer) d.buffer },
            )
            else (Result.resource_exhausted, [], clear d))
    last true valid whole = ready_lem d (header_length d.buffer) refl valid whole
    last false valid whole = (refl, refl)
