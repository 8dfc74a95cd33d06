-- ===== src/Mirror.antt =====
-- The mirror of a broker's positions in engine/include/IPortfolioView.hpp and engine/src/IPortfolioView.cpp.
pub mod State
pub mod Executions
pub mod Reconciling
pub mod Held
pub mod Matching
pub mod Bounds
pub mod Moves
mod Tests
