-- ===== src/Frames.antt =====
-- engine/include/providers/ctrader/CTraderFrameDecoder.hpp: the frames of a byte stream.
pub mod Decoder
pub mod Chunks
pub mod Reassembly
pub mod Soundness
pub mod Bounds
mod Tests
