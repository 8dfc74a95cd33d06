-- ===== src/Adapter.antt =====
-- engine/include/DeterministicBrokerAdapter.hpp and engine/src/DeterministicBrokerAdapter.cpp: the
-- simulated broker of the paper and replay runs.
pub mod State
pub mod Submission
pub mod Counters
pub mod Notices
pub mod Controls
mod Tests
