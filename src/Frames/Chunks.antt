-- ===== src/Frames/Chunks.antt =====
-- A stream of frames through engine/include/providers/ctrader/CTraderFrameDecoder.hpp, in any chunks.
use mynyra.Prelude.{
  ℕ, suc, zero, ◌+◌, ◌/◌, ◌%◌, ◌^◌, ◌≤◌, ◌<◌, ◌≡◌, refl, sym, ap, ◌∙◌, true, false, ◌||◌, List, [],
  ◌∷◌, ◌++◌, arith, ltb, ◌==◌, length, take, drop, Bool-cases, inl, inr, length-append,
  take-append_length, drop-append_length,
}
use mynyra.Frames.Decoder.{Result, CTraderFrameDecoder, append, next, byte_at, header_length}

-- A frame on the wire: its length in four bytes, from the highest, and its bytes.
abbrev pub encode : List ℕ → List ℕ
encode frame =
    let n = length frame in
    (n / 2 ^ 24 % 256) ∷ (n / 2 ^ 16 % 256) ∷ (n / 2 ^ 8 % 256) ∷ (n % 256) ∷ frame

abbrev pub stream : List (List ℕ) → List ℕ
stream [] = []
stream (frame ∷ frames) = encode frame ++ stream frames

abbrev pub join : List (List ℕ) → List ℕ
join [] = []
join (chunk ∷ chunks) = chunk ++ join chunks

-- What a call of `next` gives, and what the loop gives after it.
abbrev pub gathered :
    Result × List ℕ × CTraderFrameDecoder
    → List (List ℕ) × CTraderFrameDecoder
    → List (List ℕ) × CTraderFrameDecoder
gathered (Result.frame_ready, frame, d) (frames, last) = (frame ∷ frames, last)
gathered (Result.need_more, frame, d) more = ([], d)
gathered (Result.malformed, frame, d) more = ([], d)
gathered (Result.resource_exhausted, frame, d) more = ([], d)

-- A loop over the decoder: `next` as long as it gives a frame, on fuel.
unfoldable pub drain : ℕ → CTraderFrameDecoder → List (List ℕ) × CTraderFrameDecoder
drain zero d = ([], d)
drain (suc fuel) d = let called = next true d in gathered called (drain fuel called.2)

-- Each chunk appended, and the frames that are ready taken out; a call of `next` that gives a frame
-- removes four bytes at least, so the length of the buffer is enough fuel.
unfoldable pub receive : List (List ℕ) → CTraderFrameDecoder → List (List ℕ) × CTraderFrameDecoder
receive [] d = ([], d)
receive (chunk ∷ chunks) d =
    let appended = (append true chunk d).1 in
    let (frames, drained) = drain (length appended.buffer + 1) appended in
    let (more, last) = receive chunks drained in (frames ++ more, last)

abbrev pub IsFrame : ℕ → List ℕ → Type 0
IsFrame maximum frame = (0 < length frame) × (length frame ≤ maximum)

-- A list that begins with another one.
pub append-split :
    (us xs ys vs : List ℕ)
    → xs ++ ys ≡ us ++ vs
    → length us ≤ length xs
    → (xs ≡ us ++ drop (length us) xs) × (drop (length us) xs ++ ys ≡ vs)
append-split [] xs ys vs e h = (refl, e)
append-split (u ∷ us) [] ys vs e h = ground arith
append-split (u ∷ us) (x ∷ xs) ys vs e h =
    let (head, tail) : (x ≡ u) × (xs ++ ys ≡ us ++ vs) = ground arith in
    let (first, second) = append-split us xs ys vs tail (omega arith) in
    (rw head (ap (◌∷◌ u) first), second)

byte_at-append : (xs ys : List ℕ) (i : ℕ) → i < length xs → byte_at (xs ++ ys) i ≡ byte_at xs i
byte_at-append [] ys i h = ground arith
byte_at-append (x ∷ xs) ys zero h = refl
byte_at-append (x ∷ xs) ys (suc i) h = byte_at-append xs ys i (omega arith)

header_length-append :
    (xs ys : List ℕ) → 4 ≤ length xs → header_length (xs ++ ys) ≡ header_length xs
unfolding header_length
header_length-append xs ys h =
    rw
      (
        byte_at-append xs ys 0 (omega arith),
        byte_at-append xs ys 1 (omega arith),
        byte_at-append xs ys 2 (omega arith),
        byte_at-append xs ys 3 (omega arith),
      )
      refl

header_length-encode :
    (frame rest : List ℕ)
    → length frame < 2 ^ 32
    → header_length (encode frame ++ rest) ≡ length frame
unfolding header_length
header_length-encode frame rest h = omega arith

pub next_ready :
    (frame rest : List ℕ) (d : CTraderFrameDecoder)
    → IsFrame d.maximum_frame_bytes frame
    → d.maximum_frame_bytes < 2 ^ 32
    → d.buffer ≡ encode frame ++ rest
    → next true d ≡ (Result.frame_ready, frame, record d { buffer = rest })
unfolding next
next_ready frame rest d (some_bytes, fits) wide e =
    let size : header_length (encode frame ++ rest) ≡ length frame =
      header_length-encode frame rest (omega arith) in
    let four : ltb (length (encode frame ++ rest)) 4 ≡ false = ground arith in
    let valid : (length frame == 0 || ltb d.maximum_frame_bytes (length frame)) ≡ false =
      ground arith in
    let whole : ltb (length (encode frame ++ rest)) (4 + length frame) ≡ false =
      ground (arith, length-append frame rest) in
    let total : 4 + length frame ≡ length (encode frame) = omega arith in
    let front : take (length frame) (drop 4 (encode frame ++ rest)) ≡ frame =
      take-append_length frame rest in
    let back : drop (4 + length frame) (encode frame ++ rest) ≡ rest =
      ap (λ (n : ℕ). drop n (encode frame ++ rest)) total
      ∙ drop-append_length (encode frame) rest in
    rw (e, size, four, valid, whole, front, back) refl

pub next_waits :
    (frame rest more : List ℕ) (d : CTraderFrameDecoder)
    → IsFrame d.maximum_frame_bytes frame
    → d.maximum_frame_bytes < 2 ^ 32
    → d.buffer ++ rest ≡ encode frame ++ more
    → length d.buffer < 4 + length frame
    → next true d ≡ (Result.need_more, [], d)
unfolding next
next_waits frame rest more d (some_bytes, fits) wide e short =
    elim (Bool-cases (ltb (length d.buffer) 4)) [
      | inl tiny ↦ rw tiny refl
      | inr four ↦
          let size : header_length d.buffer ≡ length frame =
            sym (header_length-append d.buffer rest (ground arith))
            ∙ ap header_length e
            ∙ header_length-encode frame more (omega arith) in
          let valid : (length frame == 0 || ltb d.maximum_frame_bytes (length frame)) ≡ false =
            ground arith in
          let partial : ltb (length d.buffer) (4 + length frame) ≡ true = ground arith in
          rw (four, size, valid, partial) refl
    ]
