-- ===== src/Tests/Paid.antt =====
-- A withdrawal whose DEX removes the liquidity and has a claim left, while other deposits and withdrawals
-- arrive at every call.
use sns_kongswap_adaptor.Base.{ℕ, suc, ◌≡◌, refl, ◌∙◌, ap, [], ◌∷◌, ◌*◌, arith}
use sns_kongswap_adaptor.Base.Text.{Text, str, text_eq}
use sns_kongswap_adaptor.Base.Result.{Result, ok}
use sns_kongswap_adaptor.Arithmetics.{logged_saturating_add, logged_saturating_sub}
use sns_kongswap_adaptor.Sns.{Operation}
use sns_kongswap_adaptor.Validation.Asset.{asset_eq, decode_nat_to_u64}
use sns_kongswap_adaptor.Balances.{
  ValidatedBalanceBook, ValidatedBalances, update_book, move_in_book, charge_fee_in_book,
  credit_manager, deposit_suspense, move_amount, withdraw_suspense,
}
use sns_kongswap_adaptor.Context
use sns_kongswap_adaptor.Validation.Symbol
use sns_kongswap_adaptor.Balances
use sns_kongswap_adaptor.AuditTrail.{push_audit_trail_transaction}
use sns_kongswap_adaptor.Agent.{
  Request, Response, balance_of, user_balances, remove_liquidity, claims, claim,
}
use sns_kongswap_adaptor.Agent.Requests.{method, transaction_witness}
use sns_kongswap_adaptor.Agent.Witness.{serialize_reply, transfer_of}
use sns_kongswap_adaptor.Machine.{Env, Machine, done}
use sns_kongswap_adaptor.Machine.{
  ◌>>=◌, map_fail, next_operation, with_balances_mut, attempt, get_cached_balances,
}
use sns_kongswap_adaptor.Machine.Emit.{emit_transaction}
use sns_kongswap_adaptor.Adaptor.State.{
  assets, find_discrepency, move_asset, get_asset_for_ledger, unwrap,
}
use sns_kongswap_adaptor.Adaptor.Kong.{
  lp_balance, lp_token, lp_from_replies, find_lp, kong_lp_balance_to_decimals,
}
use sns_kongswap_adaptor.Adaptor.Ledgers.{
  get_ledger_balances, get_ledger_balance_decimals, return_remaining_assets_to_owner,
  return_remaining_assets_to_owner_impl,
}
use sns_kongswap_adaptor.Adaptor.Withdraw.{
  withdraw_impl, withdraw_from_dex, retry_withdraw_from_dex, book_withdrawal, report_claims,
  claim_all, settle_claim, identify_claim, book_claim, all_claimed, answer_withdrawal,
}
use sns_kongswap_adaptor.Adaptor.Messages.Exclusive.{interleaved, alone}
use sns_kongswap_adaptor.Adaptor.Isolation.Handlers.{IsPrompt, withdraw_impl-isolated}
use sns_kongswap_adaptor.TestHelpers.{
  make_lp_balance_reply, make_remove_liquidity_reply, make_claims_reply, make_claim_reply,
}
use sns_kongswap_adaptor.Tests.Adaptor.{nobody}
use sns_kongswap_adaptor.Tests.Interleaving.{arrivals}
use sns_kongswap_adaptor.Tests.Isolated.{prompt_env, replies, within}
use sns_kongswap_adaptor.Tests.Fixtures.{
  machine, some_balances, some_book, balance, account_of, manager, sns_ledger,
}

-- What the ledgers show rises by 20,000 with every call.
abbrev pays : ℕ → (r : Request) → Result (Response r) Text
pays w (balance_of account) = ok (20_000 * w)
pays w (user_balances args) = ok (ok (make_lp_balance_reply (str "DAO") (str "ICP") 400_000 ∷ []))
pays w (remove_liquidity args) = ok (
    ok (
      make_remove_liquidity_reply (str "DAO") (str "ICP") 150_000 160_000 10_500 9_500 400_000
        (0 ∷ [])))
pays w (claims args) = ok (ok (make_claims_reply (str "DAO") (str "ICP") ∷ []))
pays w (claim args) = ok (ok (make_claim_reply (str "DAO") (str "ICP") sns_ledger.text 20_000))
pays w r = replies r

abbrev paying : Env ℕ
paying = record prompt_env { call = λ p r w. (pays w r, suc w) }

prompt : IsPrompt paying
prompt = record {
  grows = λ w. refl;
  fits = λ w. omega arith;
  answered = λ p r w. omega arith;
  resumed = λ p r w. omega arith;
}

abbrev start : Machine ℕ
start = record (within Operation.withdraw) { world = 0 }

abbrev paid_book : ℕ → ℕ → ℕ → ℕ → ℕ → ValidatedBalanceBook
paid_book owner manager external fees suspense = record some_book {
  treasury_owner = balance owner;
  treasury_manager = balance manager;
  external = external;
  fee_collector = fees;
  suspense = suspense;
}

-- The DEX pays 150,000 DAO and 160,000 ICP of liquidity and a claim of 20,000 DAO; of what the ledgers
-- show in the end, 480,000 DAO and 520,000 ICP, all goes to the owners.
abbrev after : ValidatedBalances
after = record some_balances {
  asset_0_balance = paid_book 1_469_500 4_679_500 2_819_500 63_000 30_007;
  asset_1_balance = paid_book 1_510_500 4_640_000 2_830_500 50_500 40_007;
}

succeeds_alone :
    (withdraw_impl (alone paying) (account_of manager) (account_of manager) start).0 ≡ done after
unfolding withdraw_impl withdraw_from_dex retry_withdraw_from_dex book_withdrawal report_claims
    claim_all settle_claim identify_claim book_claim all_claimed answer_withdrawal lp_balance
    lp_token lp_from_replies find_lp kong_lp_balance_to_decimals get_asset_for_ledger unwrap ◌>>=◌
    map_fail next_operation emit_transaction push_audit_trail_transaction transaction_witness
    with_balances_mut attempt get_ledger_balances get_ledger_balance_decimals
    return_remaining_assets_to_owner return_remaining_assets_to_owner_impl assets find_discrepency
    move_asset method serialize_reply transfer_of logged_saturating_add logged_saturating_sub
    move_in_book withdraw_suspense deposit_suspense Balances.find_deposit_discrepency
    Balances.find_withdraw_discrepency Balances.move_asset update_book Context.next_operation
    text_eq get_cached_balances asset_eq decode_nat_to_u64 str Symbol.to_string
succeeds_alone = refl

succeeds :
    (withdraw_impl
      (interleaved paying nobody machine.context (λ w. arrivals))
      (account_of manager)
      (account_of manager)
      start).0
    ≡ done after
succeeds =
    ap (λ r. r.0)
      (withdraw_impl-isolated paying prompt nobody machine.context (λ w. arrivals) (λ w. tt)
        (account_of manager) (account_of manager) start refl)
    ∙ succeeds_alone

-- The same payments, with no claims left by the removal.
abbrev brings : ℕ → (r : Request) → Result (Response r) Text
brings w (remove_liquidity args) = ok (
    ok
      (make_remove_liquidity_reply (str "DAO") (str "ICP") 150_000 160_000 10_500 9_500 400_000 []))
brings w r = pays w r

abbrev bringing : Env ℕ
bringing = record prompt_env { call = λ p r w. (brings w r, suc w) }
