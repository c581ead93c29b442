-- ===== src/Tests/TopUp.antt =====
-- deposit/test/deposit_add_liquidity.rs, `test_add_liquidity_unproportional`: a deposit into a pool that
-- is there already, which takes 100 ICP less than offered.
use sns_kongswap_adaptor.Base.{ℕ, ◌≡◌, refl, List, [], ◌∷◌, ◌++◌, ◌-◌, ◌*◌, length}
use sns_kongswap_adaptor.Base.Text.{Text, str, text_eq}
use sns_kongswap_adaptor.Base.Result.{Result, ok, err}
use sns_kongswap_adaptor.Arithmetics.{logged_saturating_add, logged_saturating_sub}
use sns_kongswap_adaptor.Sns.{Operation}
use sns_kongswap_adaptor.Validation.Asset.{asset_eq, decode_nat_to_u64}
use sns_kongswap_adaptor.Balances.{
  ValidatedBalances, ValidatedBalanceBook, update_book, move_in_book, charge_fee_in_book,
  credit_manager, deposit_suspense, move_amount, withdraw_suspense,
}
use sns_kongswap_adaptor.Balances
use sns_kongswap_adaptor.Context
use sns_kongswap_adaptor.AuditTrail.{push_audit_trail_transaction}
use sns_kongswap_adaptor.Agent.{
  Request, Response, balance_of, transfer, approve, transfer_from, add_liquidity_amounts,
  add_liquidity, add_token, add_pool,
}
use sns_kongswap_adaptor.Agent.Requests.{method, transaction_witness}
use sns_kongswap_adaptor.Agent.Witness.{serialize_reply, transfer_of}
use sns_kongswap_adaptor.Machine.{
  done, ◌>>=◌, map_fail, next_operation, with_balances_mut, attempt, get_cached_balances, lift,
}
use sns_kongswap_adaptor.Machine.Emit.{emit_transaction}
use sns_kongswap_adaptor.Adaptor.State.{
  add_manager_balance, charge_fee, assets, find_discrepency, move_asset,
}
use sns_kongswap_adaptor.TestHelpers.Liquidity.{
  make_add_liquidity_amounts_request, make_add_liquidity_amounts_reply, make_add_liquidity_request,
  make_add_liquidity_reply,
}
use sns_kongswap_adaptor.Validation.Symbol
use sns_kongswap_adaptor.Adaptor.Kong.{e8, lp_token, maybe_add_token, tolerate_existing}
use sns_kongswap_adaptor.Adaptor.Ledgers.{
  get_ledger_balances, get_ledger_balance_decimals, return_remaining_assets_to_owner,
  return_remaining_assets_to_owner_impl,
}
use sns_kongswap_adaptor.Adaptor.Deposit.{
  deposit_impl, transfer_from_owner, transfer_from_owner_impl, deposit_into_dex, set_dex_allowances,
  set_dex_allowances_impl, topup_pool, is_pool_already_deployed_error, add_pool_action,
  check_deposit, pool_amounts,
}
use sns_kongswap_adaptor.TestHelpers.{
  fee_sns, fee_icp, sns_ledger, icp_ledger, owner_account, make_transfer_request,
  make_add_token_reply,
}
use sns_kongswap_adaptor.Tests.Fixtures.{dao, icp}
use sns_kongswap_adaptor.Tests.Scripts.{
  nth, Calls, amount_0, amount_1, backend, recording, empty, balances_of, start, step, owned,
  token_0, token_1, asked_balances, deposit_calls,
}

-- What the DEX does not take is 100 ICP, which the ledger shows at the end.
abbrev remaining : ℕ
remaining = 100 * e8

abbrev taken_0 : ℕ
taken_0 = amount_0 - 3 * fee_sns

abbrev taken_1 : ℕ
taken_1 = amount_1 - 3 * fee_icp - remaining

abbrev ledger_balances : List ℕ
ledger_balances =
    0
    ∷ 0
    ∷ 0
    ∷ 0
    ∷ (amount_0 - 2 * fee_sns)
    ∷ (amount_1 - 2 * fee_icp)
    ∷ 0
    ∷ 0
    ∷ 0
    ∷ 0
    ∷ 0
    ∷ 0
    ∷ remaining
    ∷ 0
    ∷ remaining
    ∷ []

abbrev replies : Calls → (r : Request) → Result (Response r) Text
replies calls (transfer_from args) = ok (ok 0)
replies calls (approve args) = ok (ok amount_0)
replies calls (balance_of account) = ok (nth (length calls) ledger_balances)
replies calls (add_token args) =
    ok (ok (make_add_token_reply 1 (str "IC") sns_ledger (str "My DAO Token") (str "DAO") fee_sns))
replies calls (add_pool args) = ok (err (str "LP token DAO_ICP already exists"))
replies calls (add_liquidity_amounts args) =
    ok (ok (make_add_liquidity_amounts_reply taken_0 taken_1 (str "DAO") (str "ICP")))
replies calls (add_liquidity args) =
    ok (ok (make_add_liquidity_reply taken_0 taken_1 (str "DAO") (str "ICP")))
replies calls (transfer args) = ok (ok remaining)
replies calls r = err (str "unexpected")

abbrev expected_balances : ValidatedBalances
expected_balances =
    balances_of (record empty { fee_collector = 3 * fee_sns; external = taken_0 })
      (record empty {
        fee_collector = 4 * fee_icp;
        external = taken_1;
        treasury_owner = record empty.treasury_owner { amount_decimals = remaining - fee_icp };
      })

abbrev added : Calls
added =
    (backend, add_liquidity_amounts (make_add_liquidity_amounts_request taken_0 token_0 token_1))
    ∷ (backend, add_liquidity (make_add_liquidity_request taken_0 taken_1 token_0 token_1))
    ∷ []

abbrev returned : Calls
returned =
    (
      icp_ledger,
      transfer (make_transfer_request owner_account fee_icp remaining (step Operation.deposit 15)),
    )
    ∷ []

test_add_liquidity_unproportional :
    let (result, end) =
      deposit_impl
        (recording replies)
        (owned dao amount_0)
        (owned icp amount_1)
        (start Operation.deposit (balances_of empty empty)) in
    (result ≡ done expected_balances)
    × (end.world ≡ deposit_calls ++ (added ++ (asked_balances ++ (asked_balances ++ returned))))
unfolding deposit_impl ◌>>=◌ map_fail transfer_from_owner transfer_from_owner_impl next_operation
    emit_transaction push_audit_trail_transaction transaction_witness add_manager_balance
    with_balances_mut charge_fee attempt deposit_into_dex set_dex_allowances set_dex_allowances_impl
    get_ledger_balances get_ledger_balance_decimals return_remaining_assets_to_owner
    return_remaining_assets_to_owner_impl assets add_pool_action check_deposit pool_amounts
    maybe_add_token tolerate_existing find_discrepency move_asset method serialize_reply transfer_of
    logged_saturating_add logged_saturating_sub charge_fee_in_book credit_manager deposit_suspense
    move_amount move_in_book withdraw_suspense Balances.add_manager_balance
    Balances.charge_approval_fee Balances.find_deposit_discrepency
    Balances.find_withdraw_discrepency Balances.move_asset update_book Context.next_operation
    text_eq get_cached_balances asset_eq decode_nat_to_u64 str topup_pool
    is_pool_already_deployed_error lp_token Symbol.to_string lift
test_add_liquidity_unproportional = (refl, refl)
