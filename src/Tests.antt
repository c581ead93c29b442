-- ===== src/Tests.antt =====
-- The theorems at concrete inputs, and runs of the code.
mod Fixtures
mod Balances
mod Trail
mod Validation
mod Adaptor
mod Withdrawal
mod Flows
mod Accounting
mod Agents
mod Interleaving
mod Scripts
mod HappyPath
mod TopUp
mod Removal
mod Isolated
mod Paid
mod Race
