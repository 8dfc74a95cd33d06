-- ===== src/Lifecycle.antt =====
-- engine/include/OrderLifecycleStore.hpp and engine/src/OrderLifecycleStore.cpp: the lifecycle of
-- orders as broker events arrive.
pub mod Record
pub mod Store
pub mod Fills
pub mod Advance
pub mod Outcomes
pub mod Settlements
pub mod Events
pub mod Run
pub mod Balance
pub mod Keys
pub mod Trail
mod Tests
