-- ===== src/Risk.antt =====
-- engine/include/RiskEngine.hpp and engine/src/RiskEngine.cpp: the gate before every order.
pub mod Decimals
pub mod Engine
pub mod Breakers
pub mod Returns
pub mod Snapshots
pub mod Orders
pub mod Openings
pub mod Values
pub mod Admission
pub mod Halts
pub mod Restoring
mod Tests
