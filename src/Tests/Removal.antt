-- ===== src/Tests/Removal.antt =====
-- withdraw/test/withdraw_happy_path.rs: a withdrawal of the whole pool, after the refresh of the
-- balances, makes the calls that the test expects, and leaves the balances that it expects.
use sns_kongswap_adaptor.Base.{ℕ, ◌≡◌, refl, true, [], ◌∷◌, ◌++◌, length, ◌-◌}
use sns_kongswap_adaptor.Base.Text.{str, text_eq}
use sns_kongswap_adaptor.Arithmetics.{logged_saturating_add, logged_saturating_sub}
use sns_kongswap_adaptor.Validation.Asset.{asset_eq, decode_nat_to_u64}
use sns_kongswap_adaptor.Validation.Withdrawal.{try_from_withdraw_request}
use sns_kongswap_adaptor.Balances.{update_book, move_in_book}
use sns_kongswap_adaptor.Balances
use sns_kongswap_adaptor.AuditTrail
use sns_kongswap_adaptor.Adaptor.Manager
use sns_kongswap_adaptor.Adaptor.Manager.{refresh_balances}
use sns_kongswap_adaptor.AuditTrail.{
  push_audit_trail_transaction, find_open, is_open, set_audit_trail_transaction_result,
  get_remaining_lock_duration_ns, get_audit_trail, transaction_from, max_lock_duration_ns,
  ns_in_second,
}
use sns_kongswap_adaptor.Base.Result.{err}
use sns_kongswap_adaptor.Agent.Requests.{method, transaction_witness}
use sns_kongswap_adaptor.Machine.{
  ◌>>=◌, attempt, next_operation, now, get_canister, lift, set_context, get_cached_balances,
  with_balances_mut,
}
use sns_kongswap_adaptor.Adaptor.State.{
  assets, move_asset, ledgers, owner_accounts, finalize_audit_trail_transaction,
}
use sns_kongswap_adaptor.Adaptor.Kong.{lp_balance, lp_token, lp_from_replies}
use sns_kongswap_adaptor.Adaptor.Ledgers.{
  get_ledger_balances, get_ledger_balance_decimals, return_remaining_assets_to_owner,
  return_remaining_assets_to_owner_impl,
}
use sns_kongswap_adaptor.Adaptor.Refresh.{refresh_balances_impl}
use sns_kongswap_adaptor.Adaptor.Withdraw.{
  withdraw_from_dex, retry_withdraw_from_dex, withdraw_impl, answer_withdrawal,
}
use sns_kongswap_adaptor.Sns.{Operation, operation_eq}
use sns_kongswap_adaptor.AuditTrail.{is_locking_transaction, check_state_lock}
use sns_kongswap_adaptor.Adaptor.Manager.{withdraw}
use sns_kongswap_adaptor.Machine.Emit.{emit_transaction}
use sns_kongswap_adaptor.Base.{ℕ, some, List, ◌*◌}
use sns_kongswap_adaptor.Base.Text.{Text}
use sns_kongswap_adaptor.Base.Result.{Result, ok}
use sns_kongswap_adaptor.Sns.{WithdrawRequest}
use sns_kongswap_adaptor.Agent.{
  Request, Response, balance_of, transfer, user_balances, remove_liquidity_amounts,
  remove_liquidity, claims,
}
use sns_kongswap_adaptor.Agent.Witness.{serialize_reply, transfer_of}
use sns_kongswap_adaptor.Balances.{
  ValidatedBalances, ValidatedBalanceBook, set_external, withdraw_suspense, deposit_suspense,
}
use sns_kongswap_adaptor.Machine.{initialized, map_fail}
use sns_kongswap_adaptor.Tests.Race.{is_done}
use sns_kongswap_adaptor.Context
use sns_kongswap_adaptor.Validation.Symbol
use sns_kongswap_adaptor.Validation.Withdrawal
use sns_kongswap_adaptor.Adaptor.Kong.{e8, find_lp, kong_lp_balance_to_decimals}
use sns_kongswap_adaptor.Adaptor.State.{find_discrepency, unwrap}
use sns_kongswap_adaptor.Adaptor.Withdraw.{book_withdrawal, report_claims, claim_all, all_claimed}
use sns_kongswap_adaptor.TestHelpers.{
  fee_sns, fee_icp, sns_ledger, icp_ledger, owner_account, make_transfer_request,
  make_lp_balance_request, make_lp_balance_reply, make_remove_liquidity_request,
  make_remove_liquidity_reply,
}
use sns_kongswap_adaptor.TestHelpers.{asset_0, asset_1}
use sns_kongswap_adaptor.TestHelpers.Books.{make_default_validated_balances}
use sns_kongswap_adaptor.Validation.View.{book_from, balance_from, try_from_balance}
use sns_kongswap_adaptor.Validation.View.Book.{try_from_book}
use sns_kongswap_adaptor.Validation.Asset.{try_from_asset}
use sns_kongswap_adaptor.Validation.Symbol.{try_from_text}
use sns_kongswap_adaptor.Tests.Fixtures.{env}
use sns_kongswap_adaptor.TestHelpers.Liquidity.{make_remove_liquidity_amount_reply}
use sns_kongswap_adaptor.Tests.Scripts.{
  Calls, nth, amount_0, amount_1, backend, recording, empty, balances_of, start, step,
  asked_balances,
}

abbrev at_dex_0 : ℕ
at_dex_0 = amount_0 - 2 * fee_sns

abbrev at_dex_1 : ℕ
at_dex_1 = amount_1 - 2 * fee_icp

abbrev arrived_0 : ℕ
arrived_0 = amount_0 - 3 * fee_sns

abbrev arrived_1 : ℕ
arrived_1 = amount_1 - 3 * fee_icp

-- What the ledgers show, by the number of calls before.
abbrev ledger_balances : List ℕ
ledger_balances =
    0 ∷ 0 ∷ 0 ∷ 0 ∷ 0 ∷ 0 ∷ arrived_0 ∷ arrived_1 ∷ arrived_0 ∷ arrived_1 ∷ 0 ∷ arrived_0
    ∷ arrived_1 ∷ []

-- 100 LP tokens, as a number of decimals: the floats of these runs do not scale.
abbrev lp : ℕ
lp = 100 * e8

abbrev replies : Calls → (r : Request) → Result (Response r) Text
replies calls (user_balances args) = ok (ok (make_lp_balance_reply (str "DAO") (str "ICP") lp ∷ []))
replies calls (remove_liquidity_amounts args) =
    ok (ok (make_remove_liquidity_amount_reply at_dex_0 0 at_dex_1 0 lp))
replies calls (balance_of account) = ok (nth (length calls) ledger_balances)
replies calls (remove_liquidity args) =
    ok (ok (make_remove_liquidity_reply (str "DAO") (str "ICP") at_dex_0 at_dex_1 0 0 100 []))
replies calls (claims args) = ok (ok [])
replies calls (transfer args) = ok (ok arrived_0)
replies calls r = err (str "unexpected")

abbrev removal : Request
removal = remove_liquidity (make_remove_liquidity_request (str "DAO") (str "ICP") lp)

abbrev expected_calls : Calls
expected_calls =
    (backend, user_balances make_lp_balance_request)
    ∷ (backend, remove_liquidity_amounts (make_remove_liquidity_request (str "DAO") (str "ICP") lp))
    ∷ (backend, user_balances make_lp_balance_request)
    ∷ (asked_balances
        ++ ((backend, removal)
            ∷ (asked_balances
                ++ (asked_balances
                    ++ ((backend, claims make_lp_balance_request)
                        ∷ (asked_balances
                            ++ (
                              sns_ledger,
                              transfer (
                                  make_transfer_request owner_account fee_sns arrived_0
                                    (step Operation.withdraw 11)),
                            )
                              ∷ (
                                icp_ledger,
                                transfer (
                                    make_transfer_request owner_account fee_icp arrived_1
                                      (step Operation.withdraw 12)),
                              )
                              ∷ []))))))

abbrev paid : ValidatedBalanceBook → ℕ → ValidatedBalanceBook
paid book amount = record book {
  treasury_owner = record book.treasury_owner { amount_decimals = amount };
}

abbrev before : ValidatedBalances
before =
    balances_of (record empty { fee_collector = 2 * fee_sns; external = at_dex_0 })
      (record empty { fee_collector = 2 * fee_icp; external = at_dex_1 })

-- These are the balances that the builder of the test makes.
before-make_default_validated_balances :
    make_default_validated_balances env.display asset_0 asset_1
      (book_from before.asset_0_balance)
      (book_from before.asset_1_balance)
    ≡ some before
unfolding try_from_asset try_from_text try_from_book book_from balance_from try_from_balance
    decode_nat_to_u64 str
before-make_default_validated_balances = refl

abbrev after : ValidatedBalances
after =
    balances_of (paid (record empty { fee_collector = 4 * fee_sns }) (amount_0 - 4 * fee_sns))
      (paid (record empty { fee_collector = 4 * fee_icp }) (amount_1 - 4 * fee_icp))

abbrev to_owner : WithdrawRequest
to_owner = record {
  withdraw_accounts = some ((sns_ledger, owner_account) ∷ (icp_ledger, owner_account) ∷ []);
}

test_withdraw_calls :
    (withdraw (recording replies) to_owner (start Operation.balances before)).1.world
    ≡ expected_calls
unfolding withdraw Manager.check_state_lock refresh_balances finalize_audit_trail_transaction
    AuditTrail.finalize_audit_trail_transaction find_open is_open set_audit_trail_transaction_result
    check_state_lock get_remaining_lock_duration_ns get_audit_trail transaction_from
    is_locking_transaction operation_eq now get_canister lift set_context refresh_balances_impl
    ledgers owner_accounts try_from_withdraw_request withdraw_impl withdraw_from_dex
    retry_withdraw_from_dex return_remaining_assets_to_owner return_remaining_assets_to_owner_impl
    get_ledger_balances get_ledger_balance_decimals lp_balance lp_token lp_from_replies assets
    move_asset ◌>>=◌ get_cached_balances with_balances_mut next_operation attempt emit_transaction
    push_audit_trail_transaction transaction_witness decode_nat_to_u64 str method
    Balances.move_asset update_book asset_eq text_eq move_in_book logged_saturating_add
    logged_saturating_sub answer_withdrawal find_lp kong_lp_balance_to_decimals Symbol.to_string
    book_withdrawal report_claims claim_all all_claimed find_discrepency unwrap map_fail
    serialize_reply transfer_of withdraw_suspense Balances.find_withdraw_discrepency
    Context.next_operation Context.new Withdrawal.get Balances.set_external_custodian_balance
    set_external
test_withdraw_calls = refl

test_withdraw_success :
    let (result, end) = withdraw (recording replies) to_owner (start Operation.balances before) in
    (is_done result ≡ true) × (end.canister.balances ≡ initialized after)
unfolding withdraw Manager.check_state_lock refresh_balances finalize_audit_trail_transaction
    AuditTrail.finalize_audit_trail_transaction find_open is_open set_audit_trail_transaction_result
    check_state_lock get_remaining_lock_duration_ns get_audit_trail transaction_from
    is_locking_transaction operation_eq now get_canister lift set_context refresh_balances_impl
    ledgers owner_accounts try_from_withdraw_request withdraw_impl withdraw_from_dex
    retry_withdraw_from_dex return_remaining_assets_to_owner return_remaining_assets_to_owner_impl
    get_ledger_balances get_ledger_balance_decimals lp_balance lp_token lp_from_replies assets
    move_asset ◌>>=◌ get_cached_balances with_balances_mut next_operation attempt emit_transaction
    push_audit_trail_transaction transaction_witness decode_nat_to_u64 str method
    Balances.move_asset update_book asset_eq text_eq move_in_book logged_saturating_add
    logged_saturating_sub answer_withdrawal find_lp kong_lp_balance_to_decimals Symbol.to_string
    book_withdrawal report_claims claim_all all_claimed find_discrepency unwrap map_fail
    serialize_reply transfer_of withdraw_suspense Balances.find_withdraw_discrepency
    Context.next_operation Context.new Withdrawal.get Balances.set_external_custodian_balance
    set_external
test_withdraw_success = (refl, refl)
