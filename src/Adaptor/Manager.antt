-- ===== src/Adaptor/Manager.antt =====
-- canister.rs: the handlers of the treasury manager, the guard of the entry points, the periodic
-- tasks, and the installation of the canister. Timers, logs and the candid interface are not modelled.
pub mod Guards
use sns_kongswap_adaptor.Base.{Bool, Option, none, List, [], ◌∷◌, ◌++◌, if◌then◌else◌, ◌||◌}
use sns_kongswap_adaptor.Base.Text.{Text, str, text_eq}
use sns_kongswap_adaptor.Base.Result.{Result, ok, err, map_err}
use sns_kongswap_adaptor.Sns.{
  Principal, principal_eq, Account, Error, Operation, DepositRequest, WithdrawRequest,
  TreasuryManagerInit,
}
use sns_kongswap_adaptor.Validation.Asset.{ValidatedAsset}
use sns_kongswap_adaptor.Validation.Allowance.{
  ValidatedDepositRequest, try_from_deposit_request, try_from_init,
}
use sns_kongswap_adaptor.Validation.Withdrawal.{try_from_withdraw_request}
use sns_kongswap_adaptor.Validation.View.{Balances, balances_from}
use sns_kongswap_adaptor.Balances
use sns_kongswap_adaptor.AuditTrail
use sns_kongswap_adaptor.AuditTrail.{Trail}
use sns_kongswap_adaptor.Machine.{
  Env, ConfigState, initialized, Action, ◌>>=◌, ◌>>◌, pure, trap, lift, attempt, map_fail, now,
  modify, get_canister, get_cached_balances, set_context,
}
use sns_kongswap_adaptor.Adaptor.State.{
  ledgers, owner_accounts, finalize_audit_trail_transaction, unwrap,
}
use sns_kongswap_adaptor.Adaptor.Deposit.{one, validate_deposit_args, deposit_impl}
use sns_kongswap_adaptor.Adaptor.Withdraw.{withdraw_impl}
use sns_kongswap_adaptor.Adaptor.Refresh.{
  refresh_balances_impl, refresh_ledger_metadata, issue_rewards_impl,
}

module _ {W : Type 0} (env : Env W) where
  unfoldable pub check_state_lock : Action W (Unit {0}) (List Error)
  check_state_lock = do
    now_ns ← now env
    canister ← get_canister
    lift (
        AuditTrail.check_state_lock env.errors.new_temporarily_unavailable now_ns
          canister.audit_trail)

module _ {W E : Type 0} (env : Env W) where
  unfoldable pub refresh_balances : Action W (Unit {0}) E
  refresh_balances = do
    set_context Operation.balances
    result ← attempt (refresh_balances_impl env)
    finalize_audit_trail_transaction Operation.balances

  unfoldable pub issue_rewards : Action W (Unit {0}) E
  issue_rewards = do
    set_context Operation.issue_reward
    refreshed ← attempt (refresh_ledger_metadata env)
    issued ← attempt (issue_rewards_impl env)
    finalize_audit_trail_transaction Operation.issue_reward

  unfoldable pub run_periodic_tasks : Action W (Unit {0}) E
  run_periodic_tasks = do issue_rewards; refresh_balances

module _ {W : Type 0} (env : Env W) where
  unfoldable pub deposit : DepositRequest → Action W Balances (List Error)
  deposit request = do
    check_state_lock env
    validated ← lift (
        map_err (λ e. one (env.errors.new_precondition e))
          (try_from_deposit_request env.display env.icp_ledger_canister_id request))
    map_fail one (validate_deposit_args env validated.allowance_0 validated.allowance_1)
    set_context Operation.deposit
    deposited ← deposit_impl env validated.allowance_0 validated.allowance_1
    finalize_audit_trail_transaction Operation.deposit
    pure (balances_from deposited)

  unfoldable pub withdraw : WithdrawRequest → Action W Balances (List Error)
  withdraw request = do
    check_state_lock env
    refresh_balances env
    (ledger_0, ledger_1) ← ledgers
    (default_owner_0, default_owner_1) ← owner_accounts
    validated ← lift (
        map_err (λ e. one (env.errors.new_precondition e))
          (try_from_withdraw_request ledger_0 ledger_1 default_owner_0 default_owner_1 request))
    set_context Operation.withdraw
    returned ← withdraw_impl env validated.withdraw_account_0 validated.withdraw_account_1
    finalize_audit_trail_transaction Operation.withdraw
    pure (balances_from returned)

  -- The query `balances`.
  unfoldable pub balances : Action W Balances (List Error)
  balances = do cached ← get_cached_balances; pure (balances_from cached)

module _ {W E : Type 0} (env : Env W) where
  -- `is_controller` is the platform's.
  unfoldable pub check_access : (Principal → Bool) → Principal → Action W (Unit {0}) E
  check_access is_controller caller =
      if principal_eq caller env.id || is_controller caller then pure tt else trap

  -- `KongSwapAdaptor::initialize`. Balances that are there already are logged, and replaced.
  unfoldable pub initialize :
      ValidatedAsset → ValidatedAsset → Account → Account → Action W (Unit {0}) E
  initialize asset_0 asset_1 owner_account_0 owner_account_1 = do
    timestamp_ns ← now env
    let manager_account : Account = record { owner = env.id; subaccount = none }
    modify (λ c. record c {
      balances = initialized (
          Balances.new timestamp_ns asset_0 asset_1 (str "DAO Treasury") owner_account_0
            owner_account_1 (str "KongSwapAdaptor(" ++ (env.id.text ++ str ")")) manager_account
            manager_account);
    })

  -- The part of `canister_init` that changes the state: an argument that does not validate traps.
  unfoldable pub canister_init : TreasuryManagerInit → Action W ValidatedDepositRequest E
  canister_init init = do
    validated ← unwrap (try_from_init env.display env.icp_ledger_canister_id init)
    initialize validated.allowance_0.asset validated.allowance_1.asset
        validated.allowance_0.owner_account validated.allowance_1.owner_account
    pure validated

module _ {W : Type 0} (env : Env W) (is_controller : Principal → Bool) (caller : Principal) where
  -- The entry points `deposit` and `withdraw`.
  unfoldable pub deposit_endpoint : DepositRequest → Action W Balances (List Error)
  deposit_endpoint request = do check_access env is_controller caller; deposit env request

  unfoldable pub withdraw_endpoint : WithdrawRequest → Action W Balances (List Error)
  withdraw_endpoint request = do check_access env is_controller caller; withdraw env request
