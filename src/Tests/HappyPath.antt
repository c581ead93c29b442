-- ===== src/Tests/HappyPath.antt =====
-- deposit/test/deposit_happy_path.rs: a deposit of 500 DAO and 400 ICP into a new pool makes the calls
-- that the test expects, in their order, and leaves the balances that it expects.
use sns_kongswap_adaptor.Base.{ℕ, ◌≡◌, refl, ◌++◌, ◌-◌, ◌*◌, length, ltb, if◌then◌else◌}
use sns_kongswap_adaptor.Base.Text.{Text, str, text_eq}
use sns_kongswap_adaptor.Base.Result.{Result, ok, err}
use sns_kongswap_adaptor.Arithmetics.{logged_saturating_add, logged_saturating_sub}
use sns_kongswap_adaptor.Sns.{Operation}
use sns_kongswap_adaptor.Validation.Asset.{asset_eq, decode_nat_to_u64}
use sns_kongswap_adaptor.Balances.{
  ValidatedBalances, ValidatedBalanceBook, update_book, move_in_book, charge_fee_in_book,
  credit_manager, deposit_suspense, move_amount, withdraw_suspense,
}
use sns_kongswap_adaptor.Balances
use sns_kongswap_adaptor.Context
use sns_kongswap_adaptor.AuditTrail.{push_audit_trail_transaction}
use sns_kongswap_adaptor.Agent.{
  Request, Response, balance_of, approve, transfer_from, add_token, add_pool,
}
use sns_kongswap_adaptor.Agent.Requests.{method, transaction_witness}
use sns_kongswap_adaptor.Agent.Witness.{serialize_reply, transfer_of}
use sns_kongswap_adaptor.Machine.{
  done, ◌>>=◌, map_fail, next_operation, with_balances_mut, attempt, get_cached_balances,
}
use sns_kongswap_adaptor.Machine.Emit.{emit_transaction}
use sns_kongswap_adaptor.Adaptor.State.{
  add_manager_balance, charge_fee, assets, find_discrepency, move_asset,
}
use sns_kongswap_adaptor.Adaptor.Kong.{maybe_add_token, tolerate_existing}
use sns_kongswap_adaptor.Adaptor.Ledgers.{
  get_ledger_balances, get_ledger_balance_decimals, return_remaining_assets_to_owner,
  return_remaining_assets_to_owner_impl,
}
use sns_kongswap_adaptor.Adaptor.Deposit.{
  deposit_impl, transfer_from_owner, transfer_from_owner_impl, deposit_into_dex, set_dex_allowances,
  set_dex_allowances_impl, add_pool_action, check_deposit, pool_amounts,
}
use sns_kongswap_adaptor.TestHelpers.{
  fee_sns, fee_icp, sns_ledger, make_add_token_reply, make_add_pool_reply,
}
use sns_kongswap_adaptor.Tests.Fixtures.{dao, icp}
use sns_kongswap_adaptor.Tests.Scripts.{
  Calls, amount_0, amount_1, recording, empty, balances_of, start, owned, asked_balances,
  deposit_calls,
}

-- Before the pool is added, the ledgers show what has been approved, and after it nothing.
abbrev ledger_balance : Calls → ℕ
ledger_balance calls =
    if ltb (length calls) 5
    then amount_0 - 2 * fee_sns
    else if ltb (length calls) 6
    then amount_1 - 2 * fee_icp
    else 0

abbrev replies : Calls → (r : Request) → Result (Response r) Text
replies calls (transfer_from args) = ok (ok 0)
replies calls (approve args) = ok (ok amount_0)
replies calls (balance_of account) = ok (ledger_balance calls)
replies calls (add_token args) =
    ok (ok (make_add_token_reply 1 (str "IC") sns_ledger (str "My DAO Token") (str "DAO") fee_sns))
replies calls (add_pool args) = ok (ok (make_add_pool_reply (str "DAO") (str "ICP")))
replies calls r = err (str "unexpected")

abbrev expected_balances : ValidatedBalances
expected_balances =
    balances_of (record empty { fee_collector = 3 * fee_sns; external = amount_0 - 3 * fee_sns })
      (record empty { fee_collector = 3 * fee_icp; external = amount_1 - 3 * fee_icp })

test_deposit_success :
    let (result, end) =
      deposit_impl
        (recording replies)
        (owned dao amount_0)
        (owned icp amount_1)
        (start Operation.deposit (balances_of empty empty)) in
    (result ≡ done expected_balances)
    × (end.world ≡ deposit_calls ++ (asked_balances ++ asked_balances))
unfolding deposit_impl ◌>>=◌ map_fail transfer_from_owner transfer_from_owner_impl next_operation
    emit_transaction push_audit_trail_transaction transaction_witness add_manager_balance
    with_balances_mut charge_fee attempt deposit_into_dex set_dex_allowances set_dex_allowances_impl
    get_ledger_balances get_ledger_balance_decimals return_remaining_assets_to_owner
    return_remaining_assets_to_owner_impl assets add_pool_action check_deposit pool_amounts
    maybe_add_token tolerate_existing find_discrepency move_asset method serialize_reply transfer_of
    logged_saturating_add logged_saturating_sub charge_fee_in_book credit_manager deposit_suspense
    move_amount move_in_book withdraw_suspense Balances.add_manager_balance
    Balances.charge_approval_fee Balances.find_deposit_discrepency
    Balances.find_withdraw_discrepency Balances.move_asset update_book Context.next_operation
    text_eq get_cached_balances asset_eq decode_nat_to_u64 str
test_deposit_success = (refl, refl)
