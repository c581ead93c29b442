-- ===== src/Tests/Adaptor.antt =====
-- The handlers in a world whose ledgers answer balance queries and transfers, and whose other calls
-- fail.
use sns_kongswap_adaptor.Base.{
  ℕ, ◌≡◌, refl, ◌≤◌, Bool, true, false, arith, none, List, [], ◌∷◌, length,
}
use sns_kongswap_adaptor.Base.Text.{str, decimal}
use sns_kongswap_adaptor.Base.Result.{ok}
use sns_kongswap_adaptor.Arithmetics.{u64_max}
use sns_kongswap_adaptor.Sns.{
  Principal, Error, Operation, operation_eq, DepositRequest, WithdrawRequest, TreasuryManagerInit,
}
use sns_kongswap_adaptor.AuditTrail.{is_locking_transaction}
use sns_kongswap_adaptor.AuditTrail.Append.{Extends, Grows-refl}
use sns_kongswap_adaptor.Machine.{Machine, fail}
use sns_kongswap_adaptor.Adaptor.Manager.{deposit, withdraw}
use sns_kongswap_adaptor.Adaptor.Manager.Guards.{handlers_wait}
use sns_kongswap_adaptor.AuditTrail.Lock.{is_locking}
use sns_kongswap_adaptor.AuditTrail.{push_audit_trail_transaction}
use sns_kongswap_adaptor.Validation.Allowance.{ValidatedDepositRequest, try_from_init}
use sns_kongswap_adaptor.Tests.Validation.{accepted}
use sns_kongswap_adaptor.Adaptor.Manager.{canister_init}
use sns_kongswap_adaptor.Adaptor.Messages.Install.{installed_balances, process_all-canister_init}
use sns_kongswap_adaptor.Adaptor.Messages.{commit, Message, process_all}
use sns_kongswap_adaptor.Adaptor.Messages.Frame.{HasFrame, process_all-HasFrame}
use sns_kongswap_adaptor.Adaptor.Messages.Append.{process_all-Extends}
use sns_kongswap_adaptor.Tests.Fixtures.{
  dao, icp, icp_ledger, display, allowance_0, allowance_1, validated, env, machine, canister,
  some_balances, manager, entry, error,
}

abbrev pub nobody : Principal → Bool
nobody p = false

abbrev pub no_allowances : DepositRequest
no_allowances = record { allowances = [] }

abbrev pub to_owners : WithdrawRequest
to_owners = record { withdraw_accounts = none }

-- A deposit has begun before.
abbrev locked : Machine ℕ
locked = record machine {
  canister = record canister { audit_trail = entry Operation.deposit 20 ∷ [] };
}

abbrev wait : List Error
wait = error (str "Canister state is locked. Please try again in 2699 seconds.") ∷ []

deposit_locks : is_locking (entry Operation.deposit 20) ≡ true
unfolding is_locking_transaction operation_eq
deposit_locks = refl

handlers_wait_example :
    (deposit env no_allowances locked ≡ (fail wait, locked))
    × (withdraw env to_owners locked ≡ (fail wait, locked))
unfolding push_audit_trail_transaction str decimal
handlers_wait_example =
    handlers_wait env no_allowances to_owners locked (entry Operation.deposit 20) [] [] refl
      deposit_locks refl refl (omega arith) (omega arith)

abbrev pub messages : List Message
messages =
    Message.periodic_tasks
    ∷ Message.withdraw manager to_owners
    ∷ Message.deposit manager no_allowances
    ∷ []

process_all-HasFrame_example :
    HasFrame some_balances (process_all env nobody messages machine).canister
process_all-HasFrame_example =
    process_all-HasFrame env nobody messages machine some_balances (λ w c h. h) refl refl

process_all-Extends_example :
    let trail = (process_all env nobody messages machine).canister.audit_trail in
    (1 ≤ length trail) × (length trail ≤ u64_max → Extends (entry Operation.balances 10 ∷ []) trail)
process_all-Extends_example =
    process_all-Extends env nobody messages machine (λ w c. Grows-refl c.audit_trail) refl

abbrev pub init : TreasuryManagerInit
init = record { allowances = allowance_0 ∷ allowance_1 ∷ [] }

abbrev valid_init : ValidatedDepositRequest
valid_init = record {
  allowance_0 = validated dao 50_000_000_000;
  allowance_1 = validated icp 10_000_000_000;
}

init_validates : try_from_init display icp_ledger init ≡ ok valid_init
unfolding try_from_init
init_validates = rw accepted refl

process_all-canister_init_example :
    HasFrame
      (installed_balances env 1000 valid_init)
      (process_all env nobody messages
        (commit (canister_init {E = Error} env init) machine)).canister
process_all-canister_init_example =
    process_all-canister_init env nobody init valid_init messages machine init_validates
      (λ w c h. h)
