-- ===== src/Frames/Decoder.antt =====
-- The decoder of engine/include/providers/ctrader/CTraderFrameDecoder.hpp. A byte is a number below
-- 256 and a `std::string` a list of them; a size is below 2 ^ 64.
use mynyra.Prelude.{
  ℕ, suc, zero, ◌+◌, ◌-◌, ◌*◌, ◌/◌, ◌^◌, Bool, ◌||◌, List, [], ◌∷◌, ◌++◌, ltb, leb, ◌==◌,
  if◌then◌else◌, length, take, drop,
}

pub data Result : Type 0 where
  need_more frame_ready malformed resource_exhausted : Result

pub record CTraderFrameDecoder : Type 0 where
  pub maximum_frame_bytes : ℕ
  pub maximum_buffered_bytes : ℕ
  pub buffer : List ℕ

-- The constructor.
unfoldable pub new_decoder : ℕ → CTraderFrameDecoder
new_decoder maximum = record {
  maximum_frame_bytes = maximum;
  maximum_buffered_bytes = if leb maximum ((2 ^ 64 - 1 - 8) / 2) then maximum * 2 + 8 else maximum;
  buffer = [];
}

abbrev pub clear : CTraderFrameDecoder → CTraderFrameDecoder
clear d = record d { buffer = [] }

-- The first argument is what the allocation of the string does: `false` is an exception.
unfoldable pub append : Bool → List ℕ → CTraderFrameDecoder → Result × CTraderFrameDecoder
append allocates bytes d =
    if length bytes == 0
    then (Result.need_more, d)
    else if ltb d.maximum_buffered_bytes (length bytes)
        || ltb (d.maximum_buffered_bytes - length bytes) (length d.buffer)
    then (Result.malformed, clear d)
    else if allocates
    then (Result.need_more, record d { buffer = d.buffer ++ bytes })
    else (Result.resource_exhausted, clear d)

-- `header[i]`, which is read where the buffer has four bytes.
abbrev pub byte_at : List ℕ → ℕ → ℕ
byte_at [] i = 0
byte_at (b ∷ bs) zero = b
byte_at (b ∷ bs) (suc i) = byte_at bs i

-- The four bytes from the highest; the shifted bytes share no bit, so `|` is a sum.
unfoldable pub header_length : List ℕ → ℕ
header_length bs =
    byte_at bs 0 * 2 ^ 24 + byte_at bs 1 * 2 ^ 16 + byte_at bs 2 * 2 ^ 8 + byte_at bs 3

-- The result with the out parameter `frame`.
unfoldable pub next : Bool → CTraderFrameDecoder → Result × List ℕ × CTraderFrameDecoder
next allocates d =
    let size = header_length d.buffer in
    let total = 4 + size in
    if ltb (length d.buffer) 4
    then (Result.need_more, [], d)
    else if size == 0 || ltb d.maximum_frame_bytes size
    then (Result.malformed, [], clear d)
    else if ltb (length d.buffer) total
    then (Result.need_more, [], d)
    else if allocates
    then (
      Result.frame_ready,
      take size (drop 4 d.buffer),
      record d { buffer = drop total d.buffer },
    )
    else (Result.resource_exhausted, [], clear d)
