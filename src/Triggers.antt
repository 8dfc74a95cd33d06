-- ===== src/Triggers.antt =====
-- engine/include/TriggerOrderManager.hpp and engine/src/TriggerOrderManager.cpp: protective orders.
pub mod Manager
pub mod Evaluation
pub mod Counting
pub mod Lookup
pub mod Pool
pub mod Initial
pub mod Orders
pub mod Runs
pub mod Reaching
pub mod Fills
mod Tests
