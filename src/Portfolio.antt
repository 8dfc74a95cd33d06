-- ===== src/Portfolio.antt =====
-- engine/include/PortfolioManager.hpp and engine/src/PortfolioManager.cpp: cash, positions, the
-- valuation of the account and the queue of pending orders.
pub mod Outcomes
pub mod State
pub mod Valuing
pub mod Opening
pub mod Closing
pub mod Pending
pub mod Valued
pub mod Purchases
pub mod Entries
pub mod Additions
pub mod Sales
pub mod Closings
pub mod Books
pub mod Calls
pub mod Solvency
pub mod Conservation
pub mod Holdings
pub mod Trailing
pub mod Due
pub mod Queue
pub mod Filling
pub mod Once
pub mod Snapshots
pub mod Restoring
mod Tests
