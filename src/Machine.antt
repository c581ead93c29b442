-- ===== src/Machine.antt =====
-- state.rs and emit_transaction.rs: the canister's stable state, the calls that it makes, and the one
-- way in which it makes them.
--
-- The Internet Computer runs one message at a time and commits its changes when it ends or awaits a
-- call; a trap takes the state back to the last commit. So a machine holds the state, the state of
-- the last commit, and the world that answers; while a call is awaited, other messages of the
-- canister may run, and `others` of the world says what they did.
mod State
mod Run
pub mod Emit
pub mod Keeps
pub mod Agrees
pub mod Writes
pub mod Answers
unfoldable pub use State.*
unfoldable pub use Run.*
