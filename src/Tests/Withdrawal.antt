-- ===== src/Tests/Withdrawal.antt =====
-- A withdrawal while the DEX cannot be reached: the claims cannot be asked for, and what the canister
-- holds on the ledgers goes to the owners all the same.
use sns_kongswap_adaptor.Base.{ℕ, ◌≡◌, ◌≢◌, refl, ◌∙◌, sym, List, [], ◌∷◌, ◌+◌, ◌-◌}
use sns_kongswap_adaptor.Base.Text.{str, text_eq}
use sns_kongswap_adaptor.Arithmetics.{logged_saturating_add, logged_saturating_sub}
use sns_kongswap_adaptor.Sns.{call, Error}
use sns_kongswap_adaptor.Validation.Asset.{asset_eq, decode_nat_to_u64}
use sns_kongswap_adaptor.Balances.{
  ValidatedBalanceBook, ValidatedBalances, update_book, move_in_book,
}
use sns_kongswap_adaptor.Balances
use sns_kongswap_adaptor.AuditTrail.{push_audit_trail_transaction}
use sns_kongswap_adaptor.Agent.Requests.{method, transaction_witness}
use sns_kongswap_adaptor.Machine.{
  Machine, Flow, done, fail, trapped, initialized, ◌>>=◌, attempt, next_operation,
  get_cached_balances, with_balances_mut,
}
use sns_kongswap_adaptor.Machine.Emit.{emit_transaction}
use sns_kongswap_adaptor.Adaptor.State.{assets, move_asset}
use sns_kongswap_adaptor.Adaptor.Kong.{lp_balance, lp_token, lp_from_replies}
use sns_kongswap_adaptor.Adaptor.Ledgers.{
  get_ledger_balances, get_ledger_balance_decimals, return_remaining_assets_to_owner,
  return_remaining_assets_to_owner_impl,
}
use sns_kongswap_adaptor.Adaptor.Withdraw.{
  withdraw_from_dex, retry_withdraw_from_dex, withdraw_impl,
}
use sns_kongswap_adaptor.Adaptor.Withdraw.Answer.{withdraw_impl_answers}
use sns_kongswap_adaptor.Tests.Fixtures.{
  env, machine, some_balances, some_book, balance, account_of, manager, anonymous,
}

abbrev withdrawn : Flow (Unit {0}) (List Error) × Machine ℕ
withdrawn = withdraw_from_dex env machine

abbrev retried : Flow (Unit {0}) (List Error) × Machine ℕ
retried = retry_withdraw_from_dex env withdrawn.1

abbrev returned : Flow (Unit {0}) (List Error) × Machine ℕ
returned = return_remaining_assets_to_owner env (account_of manager) (account_of manager) retried.1

abbrev unreachable : List Error
unreachable =
    record { code = 2; message = str "unreachable"; kind = call (str "claims") anonymous } ∷ []

-- 1,000,000 of each token have left the manager.
abbrev returned_book : ℕ → ValidatedBalanceBook
returned_book fee = record some_book {
  treasury_owner = balance (2_000_000 - fee);
  treasury_manager = balance 4_000_000;
  fee_collector = 31_500 + fee;
}

abbrev after : ValidatedBalances
after = record some_balances {
  asset_0_balance = returned_book 10_500;
  asset_1_balance = returned_book 9_500;
}

outcomes :
    (withdrawn.0 ≡ done tt)
    × (retried.0 ≡ fail unreachable)
    × (returned.0 ≡ done tt)
    × (returned.1.canister.balances ≡ initialized after)
unfolding withdraw_from_dex retry_withdraw_from_dex return_remaining_assets_to_owner
    return_remaining_assets_to_owner_impl get_ledger_balances get_ledger_balance_decimals lp_balance
    lp_token lp_from_replies assets move_asset ◌>>=◌ get_cached_balances with_balances_mut
    next_operation attempt emit_transaction push_audit_trail_transaction transaction_witness
    decode_nat_to_u64 str method Balances.move_asset update_book asset_eq text_eq move_in_book
    logged_saturating_add logged_saturating_sub
outcomes = (refl, refl, refl, refl)

withdrawn_ends : withdrawn.0 ≢ trapped
withdrawn_ends h = let e = sym outcomes.0 ∙ h in cc

retried_ends : retried.0 ≢ trapped
retried_ends h = let e = sym outcomes.1 ∙ h in cc

withdraw_impl_answers_example :
    withdraw_impl env (account_of manager) (account_of manager) machine ≡ (done after, returned.1)
withdraw_impl_answers_example =
    withdraw_impl_answers env (account_of manager) (account_of manager) machine after withdrawn_ends
      retried_ends outcomes.2 outcomes.3
