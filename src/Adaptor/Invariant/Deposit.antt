-- ===== src/Adaptor/Invariant/Deposit.antt =====
-- The functions of deposit/mod.rs keep every invariant.
use sns_kongswap_adaptor.Base.{ℕ, List, true}
use sns_kongswap_adaptor.Base.Text.{Text}
use sns_kongswap_adaptor.Base.Result.{Result, ok, err}
use sns_kongswap_adaptor.Sns.{Error, Operation}
use sns_kongswap_adaptor.Validation.Asset.{ValidatedAsset}
use sns_kongswap_adaptor.Validation.Allowance.{ValidatedAllowance}
use sns_kongswap_adaptor.Machine.{Env, Canister}
use sns_kongswap_adaptor.Machine.Keeps.{
  Keeps, IsReadable, action_rules, throw-Keeps, get_cached_balances-Keeps,
}
use sns_kongswap_adaptor.Adaptor.Deposit.{
  validate_deposit_args, set_dex_allowances_impl, set_dex_allowances, topup_pool,
  is_pool_already_deployed_error, add_pool_action, check_deposit, pool_amounts, deposit_into_dex,
  transfer_from_owner_impl, transfer_from_owner, deposited, deposit_impl,
}
use sns_kongswap_adaptor.Balances.{Party}
use sns_kongswap_adaptor.Balances.Flows.{
  Permits, received, charged, to_dex, deposit_checked, left_over,
}
use sns_kongswap_adaptor.Adaptor.State.{
  move_asset, charge_fee, add_manager_balance, find_discrepency,
}
use sns_kongswap_adaptor.Adaptor.Ledgers.{get_ledger_balances}
use sns_kongswap_adaptor.Adaptor.Invariant.{
  IsInvariant, assets-Keeps, move_asset-Keeps, charge_fee-Keeps, add_manager_balance-Keeps,
  deposit_check-Keeps,
}
use sns_kongswap_adaptor.Adaptor.Invariant.Ledgers.{
  lp_token-Keeps, maybe_add_token-Keeps, get_ledger_balances-Keeps,
  return_remaining_assets_to_owner-Keeps,
}

module _ {W : Type 0} {T : Type 0} {P : Canister → Type 0}
    (read : (c : Canister) → P c → IsReadable T c.balances) where
  deposited-Keeps : (x y : Result (Unit {0}) (List Error)) → Keeps T P (deposited {W = W} x y)
  deposited-Keeps (ok x) (ok y) = get_cached_balances-Keeps read
  deposited-Keeps (ok x) (err e) = throw-Keeps _
  deposited-Keeps (err e) (ok y) = throw-Keeps _
  deposited-Keeps (err e) (err e') = throw-Keeps _

module _ {W : Type 0} {env : Env W} {T : Type 0} {P : Canister → Type 0}
    (inv : IsInvariant env T (Permits Operation.deposit) P) where
  move-Keeps :
      (a : ValidatedAsset) (n : ℕ)
      → Keeps T P (move_asset {W = W} {E = List Error} a n Party.treasury_manager Party.external)
  move-Keeps a n = move_asset-Keeps inv a n _ _ (to_dex a n)

  fee-Keeps : (a : ValidatedAsset) → Keeps T P (charge_fee {W = W} {E = Error} a)
  fee-Keeps a = charge_fee-Keeps inv a (charged a)

  credit-Keeps :
      (a : ValidatedAsset) (n : ℕ) → Keeps T P (add_manager_balance {W = W} {E = Error} a n)
  credit-Keeps a n = add_manager_balance-Keeps inv a n (received a n)

  check-Keeps :
      (a : ValidatedAsset) (x y z : ℕ)
      → Keeps T P (find_discrepency {W = W} {E = List Error} a x y z true)
  check-Keeps a x y z = deposit_check-Keeps inv a x y z (deposit_checked a x y z)

  pub validate_deposit_args-Keeps :
      (a b : ValidatedAllowance) → Keeps T P (validate_deposit_args env a b)
  unfolding validate_deposit_args
  validate_deposit_args-Keeps a b = search (action_rules, assets-Keeps inv.read) depth 12

  set_dex_allowances_impl-Keeps :
      (a : ValidatedAllowance) → Keeps T P (set_dex_allowances_impl env a)
  unfolding set_dex_allowances_impl
  set_dex_allowances_impl-Keeps a = search (action_rules, inv.emit, fee-Keeps) depth 12

  set_dex_allowances-Keeps : (a b : ValidatedAllowance) → Keeps T P (set_dex_allowances env a b)
  unfolding set_dex_allowances
  set_dex_allowances-Keeps a b = search (action_rules, set_dex_allowances_impl-Keeps) depth 12

  topup_pool-Keeps : (a b : ValidatedAllowance) → Keeps T P (topup_pool env a b)
  unfolding topup_pool
  topup_pool-Keeps a b = search (action_rules, inv.emit) depth 12

  is_pool_already_deployed_error-Keeps :
      (message : Text) → Keeps T P (is_pool_already_deployed_error env message)
  unfolding is_pool_already_deployed_error
  is_pool_already_deployed_error-Keeps message =
      search (action_rules, lp_token-Keeps inv.read) depth 12

  add_pool_action-Keeps : (a b : ValidatedAllowance) → Keeps T P (add_pool_action env a b)
  unfolding add_pool_action
  add_pool_action-Keeps a b = search (action_rules, inv.emit, maybe_add_token-Keeps inv) depth 12

  check_deposit-Keeps :
      (a b : ValidatedAllowance) (x y : ℕ × ℕ) (n m : ℕ) → Keeps T P (check_deposit env a b x y n m)
  unfolding check_deposit
  check_deposit-Keeps a b x y n m = search (action_rules, check-Keeps) depth 12

  ledger_balances-Keeps : Keeps T P (get_ledger_balances env)
  ledger_balances-Keeps = get_ledger_balances-Keeps inv

  pool_amounts-Keeps :
      (a b : ValidatedAllowance) (x : ℕ × ℕ) (r : Result (Unit {0}) Error)
      → Keeps T P (pool_amounts env a b x r)
  unfolding pool_amounts
  pool_amounts-Keeps a b x (ok added) = search action_rules
  pool_amounts-Keeps a b x (err e) =
      search
        (
          action_rules, is_pool_already_deployed_error-Keeps, topup_pool-Keeps,
          ledger_balances-Keeps, check_deposit-Keeps,
        )
        depth 12

  deposit_into_dex-Keeps : (a b : ValidatedAllowance) → Keeps T P (deposit_into_dex env a b)
  unfolding deposit_into_dex
  deposit_into_dex-Keeps a b =
      search
        (
          action_rules, set_dex_allowances-Keeps, ledger_balances-Keeps, add_pool_action-Keeps,
          pool_amounts-Keeps, move-Keeps, check_deposit-Keeps,
        )
        depth 20

  transfer_from_owner_impl-Keeps :
      (a : ValidatedAllowance) → Keeps T P (transfer_from_owner_impl env a)
  unfolding transfer_from_owner_impl
  transfer_from_owner_impl-Keeps a =
      search (action_rules, inv.emit, credit-Keeps, fee-Keeps) depth 12

  transfer_from_owner-Keeps : (a b : ValidatedAllowance) → Keeps T P (transfer_from_owner env a b)
  unfolding transfer_from_owner
  transfer_from_owner-Keeps a b = search (action_rules, transfer_from_owner_impl-Keeps) depth 12

  pub deposit_impl-Keeps : (a b : ValidatedAllowance) → Keeps T P (deposit_impl env a b)
  unfolding deposit_impl
  deposit_impl-Keeps a b =
      search
        (
          action_rules,
          transfer_from_owner-Keeps,
          deposit_into_dex-Keeps,
          return_remaining_assets_to_owner-Keeps inv left_over,
          deposited-Keeps inv.read,
        )
        depth 12
