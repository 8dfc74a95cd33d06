-- ===== src/Gateway.antt =====
-- engine/include/BrokerGateway.hpp and engine/src/BrokerGateway.cpp: the gateway between the engine and a
-- broker adapter.
pub mod Normalizing
pub mod State
pub mod Handlers
pub mod Dispatch
pub mod Controls
pub mod Legacy
pub mod Rescaling
pub mod Aligning
pub mod Bounds
pub mod Safety
pub mod Paper
pub mod Filling
pub mod Answers
pub mod Settling
pub mod Settled
mod Tests
