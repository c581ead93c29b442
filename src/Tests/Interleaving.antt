-- ===== src/Tests/Interleaving.antt =====
-- A deposit that waits for a ledger, and a deposit and a withdrawal that arrive meanwhile.
use sns_kongswap_adaptor.Base.{◌≡◌, refl, false, List, [], ◌∷◌}
use sns_kongswap_adaptor.Base.Text.{str}
use sns_kongswap_adaptor.Sns.{Operation, operation_eq}
use sns_kongswap_adaptor.AuditTrail.{is_locking_transaction, check_state_lock}
use sns_kongswap_adaptor.Agent.{balance_of}
use sns_kongswap_adaptor.Adaptor.Messages.Concurrent.{check_state_lock-emit_transaction}
use sns_kongswap_adaptor.Machine.Emit.{emit_transaction}
use sns_kongswap_adaptor.Adaptor.Messages.{Message}
use sns_kongswap_adaptor.Adaptor.Messages.Exclusive.{alone}
use sns_kongswap_adaptor.Tests.Adaptor.{no_allowances, to_owners}
use sns_kongswap_adaptor.Tests.Fixtures.{
  env, machine, manager, anonymous, operation, sns_ledger, account_of, error,
}

abbrev pub arrivals : List Message
arrivals =
    Message.deposit manager no_allowances
    ∷ Message.withdraw manager to_owners
    ∷ Message.withdraw anonymous to_owners
    ∷ []

periodic : is_locking_transaction (operation Operation.balances) ≡ false
unfolding is_locking_transaction operation_eq
periodic = refl

check_state_lock-emit_transaction_example :
    check_state_lock error 2000
      (emit_transaction
        (alone env)
        (operation Operation.balances)
        sns_ledger
        (balance_of (account_of manager))
        (str "Calling.")
        machine).1.canister.audit_trail
    ≡ check_state_lock error 2000 machine.canister.audit_trail
check_state_lock-emit_transaction_example =
    check_state_lock-emit_transaction env error 2000 (operation Operation.balances) sns_ledger
      (balance_of (account_of manager)) (str "Calling.") machine periodic refl
