-- ===== src/Tests/Flows.antt =====
-- Messages and handlers in the world of the fixtures, where nothing runs during the calls.
use sns_kongswap_adaptor.Base.{◌≡◌, ◌≤◌, refl, ◌∷◌, []}
use sns_kongswap_adaptor.Sns.{Error, DepositRequest}
use sns_kongswap_adaptor.Balances.{ValidatedBalances}
use sns_kongswap_adaptor.Balances.Flows.{Runs, AnyOperation, Deposits, Withdrawals}
use sns_kongswap_adaptor.Balances.Flows.Rises.{Rises, BalancesRise}
use sns_kongswap_adaptor.Balances.Flows.Tasks.{IsObserved}
use sns_kongswap_adaptor.Machine.{initialized}
use sns_kongswap_adaptor.Adaptor.Manager.{deposit_endpoint, refresh_balances}
use sns_kongswap_adaptor.Adaptor.Withdraw.{withdraw_impl}
use sns_kongswap_adaptor.Adaptor.Messages.{process_all}
use sns_kongswap_adaptor.Adaptor.Messages.Flows.{
  process_all-Runs, deposit_endpoint-Runs, withdraw_impl-Runs,
}
use sns_kongswap_adaptor.Adaptor.Messages.Tasks.{refresh_balances-IsObserved}
use sns_kongswap_adaptor.Tests.Adaptor.{nobody, messages}
use sns_kongswap_adaptor.Tests.Fixtures.{
  env, machine, some_balances, manager, account_of, allowance_0, allowance_1,
}

abbrev request : DepositRequest
request = record { allowances = allowance_0 ∷ allowance_1 ∷ [] }

process_all-Runs_example :
    (b : ValidatedBalances) × ((process_all env nobody messages machine).canister.balances
      ≡ initialized b)
    × Runs AnyOperation some_balances b
    × BalancesRise some_balances b
process_all-Runs_example =
    process_all-Runs env nobody messages machine some_balances (λ w c h. h) refl refl

deposit_endpoint-Runs_example :
    (b : ValidatedBalances) × ((deposit_endpoint env nobody manager request
        machine).1.canister.balances
      ≡ initialized b)
    × Runs Deposits some_balances b
    × Rises 3_000_000 b.asset_0_balance.external
    × Rises 3_000_000 b.asset_1_balance.external
deposit_endpoint-Runs_example =
    deposit_endpoint-Runs env nobody manager request machine some_balances (λ w c h. h) refl refl

withdraw_impl-Runs_example :
    (b : ValidatedBalances) × ((withdraw_impl env
        (account_of manager)
        (account_of manager)
        machine).1.canister.balances
      ≡ initialized b)
    × Runs Withdrawals some_balances b
    × (b.asset_0_balance.external ≤ 3_000_000)
    × (b.asset_1_balance.external ≤ 3_000_000)
withdraw_impl-Runs_example =
    withdraw_impl-Runs env (account_of manager) (account_of manager) machine some_balances
      (λ w c h. h) refl refl

refresh_balances-IsObserved_example :
    (b : ValidatedBalances) × ((refresh_balances {E = Error} env machine).1.canister.balances
      ≡ initialized b)
    × IsObserved some_balances b
refresh_balances-IsObserved_example =
    refresh_balances-IsObserved env machine some_balances (λ w c h. h) refl refl
