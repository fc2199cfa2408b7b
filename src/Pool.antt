-- ===== src/Pool.antt =====
-- The lending pool (contracts/lending/soroban/src/lib.rs and pause.rs), by parts.
pub mod State
pub mod Interest
pub mod Supply
pub mod Borrow
pub mod Runs
pub mod Effects
pub mod Shares
pub mod Accrual
pub mod FirstLoan
pub mod Sound
pub mod Loans
pub mod Calls
pub mod Reach
pub mod Debt
pub mod Phantom
pub mod Pausing
mod Examples
mod ReachExamples
