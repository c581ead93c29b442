-- ===== src/Tests/Race.antt =====
-- A withdrawal that another one overtakes between the check of the lock and its first transaction.
use sns_kongswap_adaptor.Base.{
  ℕ, ◌≡◌, refl, Bool, true, false, [], ◌∷◌, ◌++◌, ◌==◌, ◌+◌, ◌-◌, ◌/◌, if◌then◌else◌,
}
use sns_kongswap_adaptor.Base.Text.{str, text_eq, decimal}
use sns_kongswap_adaptor.Arithmetics.{logged_saturating_add, logged_saturating_sub}
use sns_kongswap_adaptor.Validation.Asset.{asset_eq, decode_nat_to_u64}
use sns_kongswap_adaptor.Validation.Withdrawal.{try_from_withdraw_request}
use sns_kongswap_adaptor.Balances.{update_book, move_in_book}
use sns_kongswap_adaptor.Balances
use sns_kongswap_adaptor.AuditTrail
use sns_kongswap_adaptor.Adaptor.Manager
use sns_kongswap_adaptor.Adaptor.Manager.{refresh_balances}
use sns_kongswap_adaptor.AuditTrail.{
  push_audit_trail_transaction, find_open, is_open, set_audit_trail_transaction_result,
  get_remaining_lock_duration_ns, get_audit_trail, transaction_from, max_lock_duration_ns,
  ns_in_second,
}
use sns_kongswap_adaptor.Base.Result.{err}
use sns_kongswap_adaptor.Agent.Requests.{method, transaction_witness}
use sns_kongswap_adaptor.Machine.{
  ◌>>=◌, attempt, next_operation, now, get_canister, lift, set_context, get_cached_balances,
  with_balances_mut,
}
use sns_kongswap_adaptor.Adaptor.State.{
  assets, move_asset, ledgers, owner_accounts, finalize_audit_trail_transaction,
}
use sns_kongswap_adaptor.Adaptor.Kong.{lp_balance, lp_token, lp_from_replies}
use sns_kongswap_adaptor.Adaptor.Ledgers.{
  get_ledger_balances, get_ledger_balance_decimals, return_remaining_assets_to_owner,
  return_remaining_assets_to_owner_impl,
}
use sns_kongswap_adaptor.Adaptor.Refresh.{refresh_balances_impl}
use sns_kongswap_adaptor.Adaptor.Withdraw.{
  withdraw_from_dex, retry_withdraw_from_dex, withdraw_impl, answer_withdrawal,
}
use sns_kongswap_adaptor.Sns.{Operation, operation_eq}
use sns_kongswap_adaptor.AuditTrail.{is_locking_transaction, check_state_lock}
use sns_kongswap_adaptor.Machine.{Env, Flow, done, fail, trapped}
use sns_kongswap_adaptor.Adaptor.Manager.{withdraw}
use sns_kongswap_adaptor.Machine.Emit.{emit_transaction}
use sns_kongswap_adaptor.Tests.Adaptor.{to_owners}
use sns_kongswap_adaptor.Tests.Fixtures.{env, machine, entry, error}

-- Another withdrawal begins while this one waits for the refresh of the balances.
abbrev racing : Env ℕ
racing = record env {
  others = λ w c.
      if w == 1001
      then record c { audit_trail = c.audit_trail ++ entry Operation.withdraw w ∷ [] }
      else c;
}

abbrev pub is_done : {A E : Type 0} → Flow A E → Bool
is_done (done a) = true
is_done (fail e) = false
is_done trapped = false

-- Then the state is locked.
held :
    check_state_lock error 1002 (racing.others 1001 machine.canister).audit_trail
    ≡ err (
        error (
          str "Canister state is locked. Please try again in "
          ++ (decimal ((1001 + max_lock_duration_ns - 1002) / ns_in_second) ++ str " seconds."))
        ∷ [])
unfolding check_state_lock get_remaining_lock_duration_ns get_audit_trail transaction_from
    is_locking_transaction operation_eq logged_saturating_add logged_saturating_sub
held = refl

-- It goes on all the same.
goes_on : is_done (withdraw racing to_owners machine).0 ≡ true
unfolding withdraw Manager.check_state_lock refresh_balances finalize_audit_trail_transaction
    AuditTrail.finalize_audit_trail_transaction find_open is_open set_audit_trail_transaction_result
    check_state_lock get_remaining_lock_duration_ns get_audit_trail transaction_from
    is_locking_transaction operation_eq now get_canister lift set_context refresh_balances_impl
    ledgers owner_accounts try_from_withdraw_request withdraw_impl withdraw_from_dex
    retry_withdraw_from_dex return_remaining_assets_to_owner return_remaining_assets_to_owner_impl
    get_ledger_balances get_ledger_balance_decimals lp_balance lp_token lp_from_replies assets
    move_asset ◌>>=◌ get_cached_balances with_balances_mut next_operation attempt emit_transaction
    push_audit_trail_transaction transaction_witness decode_nat_to_u64 str method
    Balances.move_asset update_book asset_eq text_eq move_in_book logged_saturating_add
    logged_saturating_sub answer_withdrawal
goes_on = refl
