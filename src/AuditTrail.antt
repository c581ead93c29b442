-- ===== src/AuditTrail.antt =====
-- state.rs and state/storage.rs, the audit trail: the transactions of the canister in the order in
-- which they were begun, the finalisation of an operation, and the lock that the trail stands for.
pub mod Finalize
pub mod Lock
pub mod Unlocking
pub mod Append
use mathlib.Core.List.{reverse}
use sns_kongswap_adaptor.Base.{
  ℕ, ◌+◌, ◌*◌, ◌/◌, Bool, true, false, ◌&&◌, ◌||◌, not, Option, none, some, List, [], ◌∷◌, ◌++◌,
  map, ltb, if◌then◌else◌, length, set,
}
use sns_kongswap_adaptor.Base.Text.{Text, str, decimal}
use sns_kongswap_adaptor.Base.Result.{Result, ok, err}
use sns_kongswap_adaptor.Base.Search.{find}
use sns_kongswap_adaptor.Arithmetics.{logged_saturating_add, logged_saturating_sub}
use sns_kongswap_adaptor.Sns.{
  Principal, Error, TransactionWitness, Operation, operation_eq, TreasuryManagerOperation,
  Transaction,
}

abbrev pub ns_in_second : ℕ
ns_in_second = 1_000_000_000

-- 45 minutes.
abbrev pub max_lock_duration_ns : ℕ
max_lock_duration_ns = 45 * 60 * ns_in_second

pub record StableTransaction : Type 0 where
  pub timestamp_ns : ℕ
  pub canister_id : Principal
  pub result : Result TransactionWitness Error
  pub human_readable : Text
  pub operation : TreasuryManagerOperation

unfoldable pub transaction_from : StableTransaction → Transaction
transaction_from item = record {
  timestamp_ns = item.timestamp_ns;
  canister_id = item.canister_id;
  result = item.result;
  purpose = item.human_readable;
  treasury_manager_operation = item.operation;
}

unfoldable pub stable_transaction_from : Transaction → StableTransaction
stable_transaction_from item = record {
  timestamp_ns = item.timestamp_ns;
  canister_id = item.canister_id;
  result = item.result;
  human_readable = item.purpose;
  operation = item.treasury_manager_operation;
}

abbrev pub Trail : Type 0
Trail = List StableTransaction

-- The stable vector grows, or has no room (`grew` is its answer): then nothing is pushed. That it
-- panics on an entry beyond its bound is in `Machine.Emit`, for this function and the next.
unfoldable pub push_audit_trail_transaction : Bool → StableTransaction → Trail → Option ℕ × Trail
push_audit_trail_transaction grew transaction trail =
    if grew then (some (length trail), trail ++ transaction ∷ []) else (none, trail)

unfoldable pub set_audit_trail_transaction_result : ℕ → StableTransaction → Trail → Trail
set_audit_trail_transaction_result index transaction trail =
    if ltb index (length trail) then set trail index transaction else trail

-- The test in the closure of `finalize_audit_trail_transaction`.
unfoldable pub is_open : Operation → StableTransaction → Bool
is_open operation transaction =
    operation_eq transaction.operation.operation operation
    && not transaction.operation.step.is_final

-- `find_map` over the enumeration of the reversed trail. The index fits in 64 bits on every target.
unfoldable pub find_open :
    Operation → ℕ → ℕ → List StableTransaction → Option (ℕ × StableTransaction)
find_open operation num_transactions rev_index [] = none
find_open operation num_transactions rev_index (transaction ∷ rest) =
    if is_open operation transaction
    then some
        (logged_saturating_sub num_transactions (logged_saturating_add rev_index 1), transaction)
    else find_open operation num_transactions (rev_index + 1) rest

abbrev pub finalized : StableTransaction → StableTransaction
finalized t = record t {
  operation = record t.operation { step = record t.operation.step { is_final = true } };
}

-- What follows the search: the found transaction is written back as final.
abbrev pub close_found : Trail → Option (ℕ × StableTransaction) → Trail
close_found trail none = trail
close_found trail (some (index, transaction)) =
    set_audit_trail_transaction_result index (finalized transaction) trail

unfoldable pub finalize_audit_trail_transaction : Operation → Trail → Trail
finalize_audit_trail_transaction operation trail =
    close_found trail (find_open operation (length trail) 0 (reverse trail))

unfoldable pub get_audit_trail : Trail → List Transaction
unfolding transaction_from
get_audit_trail trail = map transaction_from trail

unfoldable pub is_locking_transaction : TreasuryManagerOperation → Bool
is_locking_transaction t =
    operation_eq t.operation Operation.deposit || operation_eq t.operation Operation.withdraw

abbrev pub locks : Transaction → Bool
locks t = is_locking_transaction t.treasury_manager_operation

-- What follows the search for the last locking transaction.
abbrev pub remaining_of : ℕ → Option Transaction → Option ℕ
remaining_of now_ns none = none
remaining_of now_ns (some transaction) =
    if transaction.treasury_manager_operation.step.is_final
    then none
    else let expiry_timestamp_ns =
        logged_saturating_add transaction.timestamp_ns max_lock_duration_ns in
      if ltb expiry_timestamp_ns now_ns
      then none
      else some (logged_saturating_sub expiry_timestamp_ns now_ns)

unfoldable pub get_remaining_lock_duration_ns : ℕ → Trail → Option ℕ
get_remaining_lock_duration_ns now_ns trail =
    remaining_of now_ns (find locks (reverse (get_audit_trail trail)))

-- `new_temporarily_unavailable` is the error constructor of the treasury manager API.
abbrev pub lock_answer : (Text → Error) → Option ℕ → Result (Unit {0}) (List Error)
lock_answer new_temporarily_unavailable none = ok tt
lock_answer new_temporarily_unavailable (some remaining) = err (
    new_temporarily_unavailable (
      str "Canister state is locked. Please try again in "
      ++ (decimal (remaining / ns_in_second) ++ str " seconds."))
    ∷ [])

unfoldable pub check_state_lock : (Text → Error) → ℕ → Trail → Result (Unit {0}) (List Error)
check_state_lock new_temporarily_unavailable now_ns trail =
    lock_answer new_temporarily_unavailable (get_remaining_lock_duration_ns now_ns trail)
