-- ===== src/Financial.antt =====
-- engine/include/FinancialMath.hpp and engine/src/FinancialMath.cpp: fixed-point money arithmetic.
pub mod Division
pub mod Wide
pub mod Product
pub mod Quotient
pub mod Units
pub mod Values
pub mod Exact
pub mod Budget
pub mod Slippage
mod Tests
