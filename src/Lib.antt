-- ===== src/Lib.antt =====
-- The KongSwap adaptor: a canister that manages a DAO's treasury of two tokens, one of them ICP, on
-- the KongSwap DEX. A deposit takes both amounts from their owners through the two ledgers and adds
-- them to a pool; a withdrawal takes everything out and returns it; periodic tasks refresh the metadata
-- of the ledgers and the balances at the DEX, and return what is left over. The canister books every
-- movement in one balance book for each token, and every call to another canister in an audit trail,
-- whose last deposit or withdrawal is also the lock of the state.
--
-- The parts, under kongswap_adaptor/src, and their modules:
--   Arithmetics     logged_arithmetics.rs: u64 with saturation, and with wrap-around where the code has
--                   an unchecked operation
--   Sns             the API types of kongswap_adaptor/kongswap-adaptor.did that the code builds
--   Validation      validation.rs: Symbol, Asset, Allowance, Withdrawal, and View for the answers;
--                   View/Book is the way back from the API's book of test_helpers/mod.rs
--   Balances        balances.rs, `ValidatedBalances`: Book has the bodies of the methods on one book;
--                   Conservation, Discrepancy, Bounds and Frame have the proofs; Flows is the
--                   specification of what each operation may do to the books, and what its runs do;
--                   Each says what a list of updates does to one of the two books
--   AuditTrail      the audit trail and the lock of state.rs, and state/storage.rs; proofs in Finalize,
--                   Lock and Append
--   Context         audit.rs, `OperationContext`
--   Agent           agent.rs and the serialisation of audit.rs: requests, replies, and the witness of a
--                   reply; Requests has the implementations of the trait `Request`: Icrc
--                   (agent/icrc_requests.rs), Dex (kong_types.rs), Own (requests.rs); Cdk and Mock are
--                   the agents, agent/ic_cdk_agent.rs and agent/mock_agent.rs
--   Machine         the state of `KongSwapAdaptor` and the actions on it; Emit is emit_transaction.rs,
--                   and Emit/Quiet has the rules for what is booked after a call; Writes relates an
--                   action to the list of updates that it makes, with a rule for each way to build an
--                   action, and Writes/Learns ties its outcome to the answers to its calls; Agrees compares two actions in the course of a locking operation
--   Adaptor         the methods of `KongSwapAdaptor`: State (state.rs, tx_error_codes.rs), Kong
--                   (kong_api.rs), Ledgers (ledger_api.rs), Deposit (deposit/mod.rs), Withdraw
--                   (withdraw/mod.rs), Refresh (balances.rs, rewards.rs), Manager and Entry
--                   (canister.rs); Messages has the entry points as one type of messages, and
--                   Messages/Exclusive runs them while a call is awaited; Messages/Concurrent is about
--                   the lock during the calls that do not take it
--   Adaptor.Invariant  one lemma for each method, for any invariant of the state that the updates of
--                   its operation keep
--   Adaptor.Writes  one lemma for each method of a deposit and of a withdrawal, for the updates that it
--                   makes in their order; Removed is about the removal of the liquidity; Accounts,
--                   Conserves and Settles do the sums
--   Adaptor.Isolation  one lemma for each method, for other messages at its calls; Handlers puts them
--                   together for a whole deposit and for `withdraw_impl`, and Books for what a deposit
--                   writes
--   TestHelpers     the builders of requests, replies and balances of test_helpers/mod.rs
--   Base, Tests     shared helpers; concrete runs, among them HappyPath, TopUp and Removal, which make
--                   the calls that unit tests under deposit/test and withdraw/test expect
-- Functions keep the names of the code. A function whose body is long is divided at its `match`es and
-- loops, and each piece says which part it is.
--
-- How the code is represented. An action takes the machine and gives a value, an error or a trap with
-- the next machine. The machine has the canister's state, the state that was committed last, the
-- operation context and the world. A trap goes back to the committed state. A call commits, gets its
-- answer from the world, and goes on in the state that other messages have left meanwhile, which a
-- parameter gives: what it keeps is a hypothesis of each theorem that needs it. u64 numbers are natural
-- numbers, with the saturation or the wrap-around of each operation written out; `usize` is that of the
-- 32-bit target. Texts are lists of bytes. `decimal` has fuel 20, which is the number of digits of the
-- largest u64. All loops go over lists, by structural recursion.
--
-- Parameters, for code that is not in the repository: the platform (`Env`: the canister's id, the
-- clock, the answers to calls, the growth of the stable vector, whether an entry of the audit trail is
-- within its 2048 bytes, and whether the build checks for overflow), the error constructors of
-- sns_treasury_manager (`ErrorApi`), 64-bit floats (`FloatApi`), what candid, serde_json and
-- icrc_ledger_types print (`Display`, `Printer`), and candid's encoding (`Candid`, `Codec`, `Platform`).
--
-- The panics of the code are traps: an entry beyond its bound, both when it is announced and when its
-- result is written, and the unchecked subtraction of the fee in a build that checks for overflow.
--
-- Not modelled: log lines; the encoding of the stable memory; a stable cell that cannot be written,
-- which the code only logs; the start of the timers; the error type of the mock,
-- which it never returns; the harness of the tests; `make_default_balance_book` of
-- test_helpers/mod.rs, which chains builders of sns_treasury_manager; and scripts.
pub mod Base
pub mod Arithmetics
pub mod Sns
pub mod Validation
pub mod Balances
pub mod AuditTrail
pub mod Context
pub mod Agent
pub mod Machine
pub mod Adaptor
pub mod TestHelpers
pub mod Tests
