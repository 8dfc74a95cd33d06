-- ===== src/Ring.antt =====
-- engine/include/LockFreeRingBuffer.hpp: the buffer between one producer and one consumer.
pub mod Buffer
pub mod Positions
pub mod Invariant
pub mod Pushing
pub mod Popping
pub mod Refinement
mod Tests
