-- ===== src/Adaptor/Invariant/Manager.antt =====
-- The handlers of canister.rs, and the refresh of the metadata and the balances before them, keep
-- every invariant.
use sns_kongswap_adaptor.Base.{ℕ, Bool, List}
use sns_kongswap_adaptor.Sns.{Principal, Account, Error, Operation, DepositRequest, WithdrawRequest}
use sns_kongswap_adaptor.Validation.Asset.{ValidatedAsset}
use sns_kongswap_adaptor.Balances.{refresh_asset, set_external_custodian_balance}
use sns_kongswap_adaptor.Balances.Bounds.{Update, apply}
use sns_kongswap_adaptor.Balances.Flows.{Permits, refreshed, rewarded, observed}
use sns_kongswap_adaptor.Validation.View.{balances_from}
use sns_kongswap_adaptor.Adaptor.Withdraw.{withdraw_impl}
use sns_kongswap_adaptor.Machine.{Env, Canister, ◌>>=◌, ◌>>◌, pure, set_context, with_balances_mut}
use sns_kongswap_adaptor.Machine.Keeps.{
  Keeps, action_rules, trap-Keeps, pure-Keeps, lift-Keeps, map_fail-Keeps, bind-Keeps,
  set_context-Keeps, attempt-Keeps,
}
use sns_kongswap_adaptor.Adaptor.State.{finalize_audit_trail_transaction}
use sns_kongswap_adaptor.Adaptor.Kong.{lp_balance}
use sns_kongswap_adaptor.Adaptor.Refresh.{
  refresh_ledger_metadata_impl, refresh_ledger_metadata, refresh_balances_impl, issue_rewards_impl,
}
use sns_kongswap_adaptor.Adaptor.Manager.{
  check_state_lock, refresh_balances, issue_rewards, run_periodic_tasks, deposit, withdraw,
  check_access, deposit_endpoint, withdraw_endpoint,
}
use sns_kongswap_adaptor.Adaptor.Invariant.{
  IsInvariant, assets-Keeps, owner_accounts-Keeps, ledgers-Keeps, finalize-Keeps,
  update_twice-Keeps,
}
use sns_kongswap_adaptor.Adaptor.Invariant.Ledgers.{
  lp_balance-Keeps, return_remaining_assets_to_owner-Keeps,
}
use sns_kongswap_adaptor.Adaptor.Invariant.Deposit.{validate_deposit_args-Keeps, deposit_impl-Keeps}
use sns_kongswap_adaptor.Adaptor.Invariant.Withdraw.{withdraw_impl-Keeps}

module _ {W : Type 0} {env : Env W} {T : Type 0} {P : Canister → Type 0}
    (inv : IsInvariant env T (Permits Operation.issue_reward) P) where
  refresh_ledger_metadata_impl-Keeps :
      (i : ℕ) (a : ValidatedAsset) → Keeps T P (refresh_ledger_metadata_impl env i a)
  unfolding refresh_ledger_metadata_impl
  refresh_ledger_metadata_impl-Keeps i a = search (action_rules, inv.emit) depth 12

  refresh_both-Keeps :
      (i j : ℕ) (a b : ValidatedAsset)
      → Keeps T P
          (with_balances_mut {W = W} {E = Error} (λ s. refresh_asset j b (refresh_asset i a s)))
  unfolding apply
  refresh_both-Keeps i j a b =
      update_twice-Keeps inv (Update.refresh i a) (Update.refresh j b) (refreshed i a)
        (refreshed j b)

  refresh_ledger_metadata-Keeps : Keeps T P (refresh_ledger_metadata env)
  unfolding refresh_ledger_metadata
  refresh_ledger_metadata-Keeps =
      search
        (
          action_rules,
          assets-Keeps inv.read,
          refresh_ledger_metadata_impl-Keeps,
          refresh_both-Keeps,
        )
        depth 12

  issue_rewards_impl-Keeps : Keeps T P (issue_rewards_impl env)
  unfolding issue_rewards_impl
  issue_rewards_impl-Keeps =
      search
        (
          action_rules,
          owner_accounts-Keeps inv.read,
          return_remaining_assets_to_owner-Keeps inv rewarded,
        )
        depth 12

module _ {W : Type 0} {env : Env W} {T : Type 0} {P : Canister → Type 0}
    (inv : IsInvariant env T (Permits Operation.balances) P) where
  external_both-Keeps :
      (a b : ValidatedAsset) (n m : ℕ)
      → Keeps T P (
          with_balances_mut {W = W} {E = Error}
            (λ s. set_external_custodian_balance b m (set_external_custodian_balance a n s)))
  unfolding apply
  external_both-Keeps a b n m =
      update_twice-Keeps inv (Update.external a n) (Update.external b m) (observed a n)
        (observed b m)

  lp-Keeps : Keeps T P (lp_balance {E = Error} env)
  lp-Keeps = lp_balance-Keeps inv

  refresh_balances_impl-Keeps : Keeps T P (refresh_balances_impl env)
  unfolding refresh_balances_impl
  refresh_balances_impl-Keeps =
      search (action_rules, assets-Keeps inv.read, inv.emit, lp-Keeps, external_both-Keeps) depth 14

module _ {W : Type 0} {T : Type 0} {P : Canister → Type 0} (env : Env W) where
  check_state_lock-Keeps : Keeps T P (check_state_lock env)
  unfolding check_state_lock
  check_state_lock-Keeps = search action_rules depth 12

module _ {W E : Type 0} {env : Env W} {T : Type 0} {P : Canister → Type 0} where
  pub refresh_balances-Keeps :
      IsInvariant env T (Permits Operation.balances) P → Keeps T P (refresh_balances {E = E} env)
  unfolding refresh_balances
  refresh_balances-Keeps inv = bind-Keeps (set_context-Keeps _) (λ u.
      bind-Keeps (attempt-Keeps (refresh_balances_impl-Keeps inv)) (λ r. finalize-Keeps inv _))

  pub issue_rewards-Keeps :
      IsInvariant env T (Permits Operation.issue_reward) P → Keeps T P (issue_rewards {E = E} env)
  unfolding issue_rewards
  issue_rewards-Keeps inv = bind-Keeps (set_context-Keeps _) (λ u.
      bind-Keeps (attempt-Keeps (refresh_ledger_metadata-Keeps inv)) (λ r.
        bind-Keeps (attempt-Keeps (issue_rewards_impl-Keeps inv)) (λ q. finalize-Keeps inv _)))

-- An invariant of all four operations.
abbrev pub IsInvariantOfAll : {W : Type 0} → Env W → Type 0 → (Canister → Type 0) → Type 0
IsInvariantOfAll env T P = (op : Operation) → IsInvariant env T (Permits op) P

module _ {W E : Type 0} {env : Env W} {T : Type 0} {P : Canister → Type 0} where
  pub run_periodic_tasks-Keeps :
      IsInvariantOfAll env T P → Keeps T P (run_periodic_tasks {E = E} env)
  unfolding run_periodic_tasks
  run_periodic_tasks-Keeps inv =
      bind-Keeps (issue_rewards-Keeps (inv Operation.issue_reward))
        (λ u. refresh_balances-Keeps (inv Operation.balances))

module _ {W E : Type 0} {T : Type 0} {P : Canister → Type 0} (env : Env W) where
  pub check_access-Keeps :
      T → (f : Principal → Bool) (p : Principal) → Keeps T P (check_access {E = E} env f p)
  unfolding check_access
  check_access-Keeps may f p = search (action_rules, trap-Keeps may) depth 12

module _ {W : Type 0} {env : Env W} {T : Type 0} {P : Canister → Type 0}
    (inv : IsInvariant env T (Permits Operation.deposit) P) where
  pub deposit-Keeps : (r : DepositRequest) → Keeps T P (deposit env r)
  unfolding deposit
  deposit-Keeps r = bind-Keeps (check_state_lock-Keeps env) (λ u. bind-Keeps (lift-Keeps _) (λ v.
      bind-Keeps (map_fail-Keeps _ (validate_deposit_args-Keeps inv _ _)) (λ w.
        bind-Keeps (set_context-Keeps _) (λ x.
          bind-Keeps (deposit_impl-Keeps inv _ _)
            (λ d. bind-Keeps (finalize-Keeps inv _) (λ y. pure-Keeps _))))))

  pub deposit_endpoint-Keeps :
      T
      → (f : Principal → Bool) (p : Principal) (r : DepositRequest)
      → Keeps T P (deposit_endpoint env f p r)
  unfolding deposit_endpoint
  deposit_endpoint-Keeps may f p r =
      bind-Keeps (check_access-Keeps env may f p) (λ u. deposit-Keeps r)

module _ {W : Type 0} {env : Env W} {T : Type 0} {P : Canister → Type 0}
    (inv : IsInvariantOfAll env T P) (may : T) where
  -- The end of a withdrawal, once its request has been validated.
  withdrawal-Keeps :
      (a b : Account)
      → Keeps T P (do
        set_context {E = List Error} Operation.withdraw
        returned ← withdraw_impl env a b
        finalize_audit_trail_transaction Operation.withdraw
        pure (balances_from returned))
  withdrawal-Keeps a b = bind-Keeps (set_context-Keeps _) (λ x.
      bind-Keeps (withdraw_impl-Keeps (inv Operation.withdraw) may a b)
        (λ d. bind-Keeps (finalize-Keeps (inv Operation.withdraw) _) (λ y. pure-Keeps _)))

  withdraw-Keeps : (r : WithdrawRequest) → Keeps T P (withdraw env r)
  unfolding withdraw
  withdraw-Keeps r =
      let read = (inv Operation.withdraw).read in
      bind-Keeps (check_state_lock-Keeps env) (λ u.
        bind-Keeps (refresh_balances-Keeps (inv Operation.balances)) (λ v.
          bind-Keeps (ledgers-Keeps read) (λ l. bind-Keeps (owner_accounts-Keeps read) (λ o.
            bind-Keeps (lift-Keeps _)
              (λ a. withdrawal-Keeps a.withdraw_account_0 a.withdraw_account_1)))))

  pub withdraw_endpoint-Keeps :
      (f : Principal → Bool) (p : Principal) (r : WithdrawRequest)
      → Keeps T P (withdraw_endpoint env f p r)
  unfolding withdraw_endpoint
  withdraw_endpoint-Keeps f p r =
      bind-Keeps (check_access-Keeps env may f p) (λ u. withdraw-Keeps r)
