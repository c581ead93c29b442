-- ===== src/Tests/Trail.antt =====
-- The audit trail and its lock at concrete entries.
use sns_kongswap_adaptor.Base.{
  ℕ, Bool, ◌≡◌, refl, ◌≤◌, true, false, none, some, [], ◌∷◌, ◌++◌, ◌+◌, ◌-◌, ◌/◌, arith, ltb,
  if◌then◌else◌, get_elem?, length,
}
use sns_kongswap_adaptor.Base.Text.{str, decimal}
use sns_kongswap_adaptor.Base.Result.{Result, ok, err}
use sns_kongswap_adaptor.Base.Search.{fails}
use sns_kongswap_adaptor.Arithmetics.{u64_max}
use sns_kongswap_adaptor.Sns.{pending, Operation, operation_eq, Error, TransactionWitness}
use sns_kongswap_adaptor.AuditTrail.{
  StableTransaction, Trail, is_open, finalized, finalize_audit_trail_transaction,
  is_locking_transaction, get_remaining_lock_duration_ns, check_state_lock, max_lock_duration_ns,
  push_audit_trail_transaction, ns_in_second,
}
use sns_kongswap_adaptor.AuditTrail.Finalize.{finalize_audit_trail_transaction_lem}
use sns_kongswap_adaptor.AuditTrail.Lock.{
  is_locking, get_remaining_lock_duration_ns_lem, check_state_lock_expires, push_locks,
  finalize_unlocks,
}
use sns_kongswap_adaptor.Agent.{balance_of}
use sns_kongswap_adaptor.Agent.Witness.{clamp_string_len}
use sns_kongswap_adaptor.Machine.Emit.{emit_transaction, outcome}
use sns_kongswap_adaptor.Machine.{Env, trapped}
use sns_kongswap_adaptor.Agent.Requests.{transaction_witness}
use sns_kongswap_adaptor.Machine.Emit.Record.{
  announced, emit_transaction-oversized, emit_transaction-Records, Records,
}
use sns_kongswap_adaptor.Tests.Fixtures.{
  entry, error, env, machine, operation, sns_ledger, manager, account_of,
}

abbrev trail : Trail
trail = entry Operation.balances 10 ∷ entry Operation.deposit 20 ∷ entry Operation.balances 30 ∷ []

finalize_audit_trail_transaction_lem_example :
    (fails (is_open Operation.deposit) trail ≡ true
      → finalize_audit_trail_transaction Operation.deposit trail ≡ trail)
    × ((before : Trail) (t : StableTransaction) (after : Trail)
        → trail ≡ before ++ t ∷ after
        → is_open Operation.deposit t ≡ true
        → fails (is_open Operation.deposit) after ≡ true
        → length trail ≤ u64_max
        → finalize_audit_trail_transaction Operation.deposit trail ≡ before ++ finalized t ∷ after)
finalize_audit_trail_transaction_lem_example =
    finalize_audit_trail_transaction_lem Operation.deposit trail

closed_deposit :
    finalize_audit_trail_transaction Operation.deposit trail
    ≡ entry Operation.balances 10
      ∷ finalized (entry Operation.deposit 20)
      ∷ entry Operation.balances 30
      ∷ []
unfolding is_open operation_eq
closed_deposit =
    finalize_audit_trail_transaction_lem_example.1 (entry Operation.balances 10 ∷ [])
      (entry Operation.deposit 20) (entry Operation.balances 30 ∷ []) refl refl refl (omega arith)

deposit_locks : is_locking (entry Operation.deposit 20) ≡ true
unfolding is_locking_transaction operation_eq
deposit_locks = refl

balances_unlocking : fails is_locking (entry Operation.balances 30 ∷ []) ≡ true
unfolding is_locking_transaction operation_eq
balances_unlocking = refl

open_deposit : is_open Operation.deposit (entry Operation.deposit 20) ≡ true
unfolding is_open operation_eq
open_deposit = refl

get_remaining_lock_duration_ns_lem_example :
    get_remaining_lock_duration_ns 1000 (
      entry Operation.balances 10 ∷ []
      ++ entry Operation.deposit 20 ∷ entry Operation.balances 30 ∷ [])
    ≡ (if false
        then none
        else if ltb (20 + max_lock_duration_ns) 1000
        then none
        else some (20 + max_lock_duration_ns - 1000))
get_remaining_lock_duration_ns_lem_example =
    get_remaining_lock_duration_ns_lem 1000 (entry Operation.balances 10 ∷ [])
      (entry Operation.deposit 20) (entry Operation.balances 30 ∷ []) deposit_locks
      balances_unlocking (omega arith)

check_state_lock_expires_example : check_state_lock error 3_000_000_000_000 trail ≡ ok tt
check_state_lock_expires_example =
    check_state_lock_expires error 3_000_000_000_000 30 trail
      (omega arith, (omega arith, (omega arith, tt))) (omega arith) (omega arith)

push_locks_example :
    check_state_lock error 1000 (
      (push_audit_trail_transaction true
        (entry Operation.deposit 20)
        (entry Operation.balances 10 ∷ [])).1
      ++ entry Operation.balances 30 ∷ [])
    ≡ err (
        error (
          str "Canister state is locked. Please try again in "
          ++ (decimal ((20 + max_lock_duration_ns - 1000) / ns_in_second) ++ str " seconds."))
        ∷ [])
push_locks_example =
    push_locks error 1000 (entry Operation.deposit 20) (entry Operation.balances 10 ∷ [])
      (entry Operation.balances 30 ∷ []) deposit_locks refl balances_unlocking (omega arith)
      (omega arith)

finalize_unlocks_example :
    check_state_lock error 1000 (
      finalize_audit_trail_transaction Operation.deposit (
        entry Operation.balances 10 ∷ []
        ++ entry Operation.deposit 20 ∷ entry Operation.balances 30 ∷ []))
    ≡ ok tt
finalize_unlocks_example =
    finalize_unlocks error 1000 Operation.deposit (entry Operation.balances 10 ∷ [])
      (entry Operation.deposit 20) (entry Operation.balances 30 ∷ []) deposit_locks open_deposit
      balances_unlocking (omega arith) (omega arith)

emit_transaction-Records_example :
    let (flow, after) =
      emit_transaction env
        (operation Operation.deposit)
        sns_ledger
        (balance_of (account_of manager))
        (str "Calling.")
        machine in
    (result : Result TransactionWitness Error) × (get_elem? after.canister.audit_trail 1
      ≡ some (record {
        timestamp_ns = 1000;
        canister_id = sns_ledger;
        result = result;
        human_readable = str "Calling.";
        operation = operation Operation.deposit;
      }))
    × Records result flow
    × (after.committed ≡ after.canister)
emit_transaction-Records_example =
    emit_transaction-Records env (operation Operation.deposit) sns_ledger
      (balance_of (account_of manager)) (str "Calling.") machine refl (λ w c t h. h) refl refl

-- A world whose entries are within the bound only while they are pending.
abbrev is_pending : Result TransactionWitness Error → Bool
is_pending (ok pending) = true
is_pending _ = false

abbrev tight : Env ℕ
tight = record env { fits = λ t. is_pending t.result }

too_long :
    tight.fits (
      announced tight
        (operation Operation.deposit)
        sns_ledger
        (str "Calling.")
        machine
        (outcome tight sns_ledger (balance_of (account_of manager)) (ok 1_000_000)).0)
    ≡ false
unfolding outcome transaction_witness
too_long = refl

emit_transaction-oversized_example :
    let (flow, after) =
      emit_transaction tight
        (operation Operation.deposit)
        sns_ledger
        (balance_of (account_of manager))
        (str "Calling.")
        machine in
    (flow ≡ trapped)
    × (get_elem? after.canister.audit_trail 1
        ≡ some (record {
          timestamp_ns = 1000;
          canister_id = sns_ledger;
          result = ok pending;
          human_readable = str "Calling.";
          operation = operation Operation.deposit;
        }))
emit_transaction-oversized_example =
    emit_transaction-oversized tight (operation Operation.deposit) sns_ledger
      (balance_of (account_of manager)) (str "Calling.") machine refl (λ w c t h. h) refl too_long

clamped_text : clamp_string_len (str "abcdefghij") 7 ≡ str "ab...ij"
unfolding clamp_string_len str
clamped_text = refl
