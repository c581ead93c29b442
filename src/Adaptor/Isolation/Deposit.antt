-- ===== src/Adaptor/Isolation/Deposit.antt =====
-- The methods of deposit/mod.rs.
use sns_kongswap_adaptor.Base.{ℕ, List}
use sns_kongswap_adaptor.Base.Text.{Text}
use sns_kongswap_adaptor.Base.Result.{Result, ok, err}
use sns_kongswap_adaptor.Sns.{Error}
use sns_kongswap_adaptor.Validation.Allowance.{ValidatedAllowance}
use sns_kongswap_adaptor.Machine.{Env, Canister}
use sns_kongswap_adaptor.Machine.Agrees.{Agrees, throw-Agrees, get_cached_balances-Agrees}
use sns_kongswap_adaptor.Adaptor.Deposit.{
  validate_deposit_args, set_dex_allowances_impl, set_dex_allowances, topup_pool,
  is_pool_already_deployed_error, add_pool_action, check_deposit, pool_amounts, deposit_into_dex,
  transfer_from_owner_impl, transfer_from_owner, deposited, deposit_impl,
}
use sns_kongswap_adaptor.Adaptor.Ledgers.{get_ledger_balances}
use sns_kongswap_adaptor.Adaptor.Isolation.{IsIsolated, with_others, silent_rules}
use sns_kongswap_adaptor.Adaptor.Isolation.Ledgers.{
  lp_token-Agrees, maybe_add_token-Agrees, get_ledger_balances-Agrees,
  return_remaining_assets_to_owner-Agrees,
}

module _ {W : Type 0} where
  deposited-Agrees :
      (x y : Result (Unit {0}) (List Error)) → Agrees (deposited {W = W} x y) (deposited x y)
  deposited-Agrees (ok x) (ok y) = get_cached_balances-Agrees
  deposited-Agrees (ok x) (err e) = throw-Agrees _
  deposited-Agrees (err e) (ok y) = throw-Agrees _
  deposited-Agrees (err e) (err e') = throw-Agrees _

module _ {W : Type 0} {env : Env W} {o : W → Canister → Canister} (alone : IsIsolated env o) where
  ledger_balances-Agrees :
      Agrees (get_ledger_balances (with_others env o)) (get_ledger_balances env)
  ledger_balances-Agrees = get_ledger_balances-Agrees alone

  set_dex_allowances_impl-Agrees :
      (a : ValidatedAllowance)
      → Agrees (set_dex_allowances_impl (with_others env o) a) (set_dex_allowances_impl env a)
  unfolding set_dex_allowances_impl
  set_dex_allowances_impl-Agrees a = search (silent_rules, alone.emit) depth 12

  transfer_from_owner_impl-Agrees :
      (a : ValidatedAllowance)
      → Agrees (transfer_from_owner_impl (with_others env o) a) (transfer_from_owner_impl env a)
  unfolding transfer_from_owner_impl
  transfer_from_owner_impl-Agrees a = search (silent_rules, alone.emit) depth 12

  topup_pool-Agrees :
      (a b : ValidatedAllowance) → Agrees (topup_pool (with_others env o) a b) (topup_pool env a b)
  unfolding topup_pool
  topup_pool-Agrees a b = search (silent_rules, alone.emit) depth 12

  add_pool_action-Agrees :
      (a b : ValidatedAllowance)
      → Agrees (add_pool_action (with_others env o) a b) (add_pool_action env a b)
  unfolding add_pool_action
  add_pool_action-Agrees a b =
      search (silent_rules, alone.emit, maybe_add_token-Agrees alone) depth 12

  check_deposit-Agrees :
      (a b : ValidatedAllowance) (x y : ℕ × ℕ) (n m : ℕ)
      → Agrees (check_deposit (with_others env o) a b x y n m) (check_deposit env a b x y n m)
  unfolding check_deposit
  check_deposit-Agrees a b x y n m = search silent_rules depth 12

  is_pool_already_deployed_error-Agrees :
      (message : Text)
      → Agrees
          (is_pool_already_deployed_error (with_others env o) message)
          (is_pool_already_deployed_error env message)
  unfolding is_pool_already_deployed_error
  is_pool_already_deployed_error-Agrees message = search (silent_rules, lp_token-Agrees) depth 12

  set_dex_allowances-Agrees :
      (a b : ValidatedAllowance)
      → Agrees (set_dex_allowances (with_others env o) a b) (set_dex_allowances env a b)
  unfolding set_dex_allowances
  set_dex_allowances-Agrees a b = search (silent_rules, set_dex_allowances_impl-Agrees) depth 12

  transfer_from_owner-Agrees :
      (a b : ValidatedAllowance)
      → Agrees (transfer_from_owner (with_others env o) a b) (transfer_from_owner env a b)
  unfolding transfer_from_owner
  transfer_from_owner-Agrees a b = search (silent_rules, transfer_from_owner_impl-Agrees) depth 12

  pool_amounts-Agrees :
      (a b : ValidatedAllowance) (x : ℕ × ℕ) (r : Result (Unit {0}) Error)
      → Agrees (pool_amounts (with_others env o) a b x r) (pool_amounts env a b x r)
  unfolding pool_amounts
  pool_amounts-Agrees a b x (ok added) = search silent_rules
  pool_amounts-Agrees a b x (err e) =
      search
        (
          silent_rules, is_pool_already_deployed_error-Agrees, topup_pool-Agrees,
          ledger_balances-Agrees, check_deposit-Agrees,
        )
        depth 12

  deposit_into_dex-Agrees :
      (a b : ValidatedAllowance)
      → Agrees (deposit_into_dex (with_others env o) a b) (deposit_into_dex env a b)
  unfolding deposit_into_dex
  deposit_into_dex-Agrees a b =
      search
        (
          silent_rules, set_dex_allowances-Agrees, ledger_balances-Agrees, add_pool_action-Agrees,
          pool_amounts-Agrees, check_deposit-Agrees,
        )
        depth 20

  pub validate_deposit_args-Agrees :
      (a b : ValidatedAllowance)
      → Agrees (validate_deposit_args (with_others env o) a b) (validate_deposit_args env a b)
  unfolding validate_deposit_args
  validate_deposit_args-Agrees a b = search silent_rules depth 12

  pub deposit_impl-Agrees :
      (a b : ValidatedAllowance)
      → Agrees (deposit_impl (with_others env o) a b) (deposit_impl env a b)
  unfolding deposit_impl
  deposit_impl-Agrees a b =
      search
        (
          silent_rules,
          transfer_from_owner-Agrees,
          deposit_into_dex-Agrees,
          return_remaining_assets_to_owner-Agrees alone,
          deposited-Agrees,
        )
        depth 12
