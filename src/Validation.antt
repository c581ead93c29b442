-- ===== src/Validation.antt =====
-- validation.rs: what the canister accepts from its callers, and the validated forms it keeps.
pub mod Symbol
pub mod Asset
pub mod Allowance
pub mod Withdrawal
pub mod View
