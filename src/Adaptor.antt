-- ===== src/Adaptor.antt =====
-- The methods of `KongSwapAdaptor` that call other canisters, by source file, as actions on the
-- machine.
pub mod State
pub mod Kong
pub mod Ledgers
pub mod Deposit
pub mod Withdraw
pub mod Refresh
pub mod Manager
pub mod Entry
pub mod Invariant
pub mod Messages
pub mod Isolation
pub mod Writes
