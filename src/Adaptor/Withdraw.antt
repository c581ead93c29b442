-- ===== src/Adaptor/Withdraw.antt =====
-- withdraw/mod.rs: a withdrawal removes all liquidity, claims what the DEX could not send before, and
-- returns everything to the owners.
pub mod Answer
use sns_kongswap_adaptor.Base.{
  ℕ, Bool, false, Option, none, some, List, [], ◌∷◌, ◌++◌, map, if◌then◌else◌, ltb, ◌==◌,
}
use sns_kongswap_adaptor.Base.Text.{Text, str, decimal, join}
use sns_kongswap_adaptor.Base.Result.{Result, ok, err}
use sns_kongswap_adaptor.Arithmetics.{logged_saturating_add}
use sns_kongswap_adaptor.Sns.{Account, Error, backend}
use sns_kongswap_adaptor.Validation.Asset.{ValidatedAsset, asset_eq, symbol_text, decode_nat_to_u64}
use sns_kongswap_adaptor.Balances.{ValidatedBalances, treasury_manager, external}
use sns_kongswap_adaptor.Agent.{remove_liquidity, claims, claim, ClaimsReply, ClaimReply}
use sns_kongswap_adaptor.Machine.{
  Env, Action, ◌>>=◌, ◌>>◌, pure, throw, attempt, map_fail, next_operation, get_cached_balances,
}
use sns_kongswap_adaptor.Machine.Emit.{emit_transaction}
use sns_kongswap_adaptor.Adaptor.State.{
  assets, get_asset_for_ledger, move_asset, find_discrepency, unwrap, error_code, backend_code,
}
use sns_kongswap_adaptor.Adaptor.Kong.{lp_balance}
use sns_kongswap_adaptor.Adaptor.Ledgers.{get_ledger_balances, return_remaining_assets_to_owner}
use sns_kongswap_adaptor.Adaptor.Deposit.{one}

-- The answer to a withdrawal that left claims.
unfoldable pub report_claims : {W : Type 0} → List ℕ → Action W (Unit {0}) (List Error)
unfolding error_code
report_claims [] = pure tt
report_claims (c ∷ cs) = throw (
    record {
      code = error_code backend_code;
      message =
          str "Withdrawal from DEX might not be complete, returned claims: "
          ++ (join (str ", ") (map decimal (c ∷ cs)) ++ str ".");
      kind = backend;
    }
    ∷ [])

-- `errors.is_empty()` at the end of the loop over the claims.
unfoldable pub all_claimed : {W : Type 0} → List Error → Action W (Unit {0}) (List Error)
all_claimed [] = pure tt
all_claimed (e ∷ es) = throw (e ∷ es)

abbrev pub errors_of : {A : Type 0} → Result A (List Error) → List Error
errors_of (ok a) = []
errors_of (err es) = es

-- The last `match` of `withdraw_impl`: the errors collected before it are not returned.
unfoldable pub answer_withdrawal :
    {W : Type 0}
    → List Error
    → Result (Unit {0}) (List Error)
    → Action W ValidatedBalances (List Error)
answer_withdrawal errors (ok returned) = get_cached_balances
answer_withdrawal errors (err es) = throw es

module _ {W : Type 0} (env : Env W) where
  -- A balance that has grown says that the asset has arrived.
  unfoldable pub book_withdrawal : ValidatedAsset → ℕ → ℕ → ℕ → ℕ → Action W (Unit {0}) (List Error)
  book_withdrawal asset before after amount lp_fee =
      if ltb before after
      then (do
        withdrawn ← unwrap (decode_nat_to_u64 env.display amount)
        fee ← unwrap (decode_nat_to_u64 env.display lp_fee)
        let total = logged_saturating_add withdrawn fee
        find_discrepency asset before after total false
        move_asset asset total external treasury_manager)
      else pure tt

  unfoldable pub withdraw_from_dex : Action W (Unit {0}) (List Error)
  withdraw_from_dex = do
    remove_lp_token_amount ← lp_balance env
    if remove_lp_token_amount == 0 then pure tt else do
      (asset_0, asset_1) ← assets
      (before_0, before_1) ← get_ledger_balances env
      operation ← next_operation
      reply ← map_fail one (
          emit_transaction env operation env.kong_backend_canister_id
            (remove_liquidity (record {
              token_0 = symbol_text asset_0;
              token_1 = symbol_text asset_1;
              remove_lp_token_amount = remove_lp_token_amount;
            }))
            (str "Calling KongSwapBackend.remove_liquidity to withdraw all allocated tokens."))
      (after_0, after_1) ← get_ledger_balances env
      book_withdrawal asset_0 before_0 after_0 reply.amount_0 reply.lp_fee_0
      book_withdrawal asset_1 before_1 after_1 reply.amount_1 reply.lp_fee_1
      report_claims reply.claim_ids

  -- The amount of a claim that has been paid, for an asset that the canister manages.
  unfoldable pub book_claim :
      ℕ → ValidatedAsset → ℕ → ℕ → Result ℕ Text → Action W (List Error) (List Error)
  book_claim claim_id asset before after (ok amount) = do
    move_asset asset amount external treasury_manager
    find_discrepency asset before after amount false
    pure []
  book_claim claim_id asset before after (err e) = pure (
      env.errors.new_postcondition
        (str "Failed to decode amount for claim ID " ++ (decimal claim_id ++ (str ": " ++ e)))
      ∷ [])

  abbrev pub pick : Bool → ℕ × ℕ → ℕ
  pick first (a, b) = if first then a else b

  unfoldable pub identify_claim :
      ℕ → Text → ℕ → ℕ × ℕ → ℕ × ℕ → Option ValidatedAsset → Action W (List Error) (List Error)
  identify_claim claim_id canister_id amount before after none = pure (
      env.errors.new_postcondition (
        str "Cannot identify asset for ledger `"
        ++ (canister_id ++ (str "` for claim ID " ++ decimal claim_id)))
      ∷ [])
  identify_claim claim_id canister_id amount before after (some asset) = do
    (asset_0, asset_1) ← assets
    let first = asset_eq asset asset_0
    book_claim claim_id asset (pick first before) (pick first after)
        (decode_nat_to_u64 env.display amount)

  abbrev pub claimed_by :
      ℕ → ℕ × ℕ → ℕ × ℕ → ClaimReply → Option Text → Action W (List Error) (List Error)
  claimed_by claim_id before after reply none = pure (
      env.errors.new_postcondition
        (str "Claim for claim ID " ++ (decimal claim_id ++ str " returned no ledger canister ID."))
      ∷ [])
  claimed_by claim_id before after reply (some canister_id) = do
    asset ← get_asset_for_ledger canister_id
    identify_claim claim_id canister_id reply.amount before after asset

  -- The `match` on the response: the errors that one claim adds.
  unfoldable pub settle_claim :
      ℕ → ℕ × ℕ → ℕ × ℕ → Result ClaimReply Error → Action W (List Error) (List Error)
  settle_claim claim_id before after (ok reply) =
      claimed_by claim_id before after reply reply.canister_id
  settle_claim claim_id before after (err e) = pure (e ∷ [])

  -- The loop over the claims. The balances before it are those before all claims.
  unfoldable pub claim_all :
      ℕ × ℕ → List ClaimsReply → List Error → Action W (List Error) (List Error)
  claim_all before [] errors = pure errors
  claim_all before (c ∷ cs) errors = do
    operation ← next_operation
    response ← attempt (
        emit_transaction env operation env.kong_backend_canister_id
          (claim (record { claim_id = c.claim_id }))
          (str "Calling KongSwapBackend.claim to claim the liquidity for "
            ++ (c.symbol ++ (str ", claim ID " ++ (decimal c.claim_id ++ str ".")))))
    after ← get_ledger_balances env
    added ← settle_claim c.claim_id before after response
    claim_all before cs (errors ++ added)

  unfoldable pub retry_withdraw_from_dex : Action W (Unit {0}) (List Error)
  retry_withdraw_from_dex = do
    balances_before ← get_ledger_balances env
    operation ← next_operation
    replies ← map_fail one (
        emit_transaction env operation env.kong_backend_canister_id
          (claims (record { principal_id = env.id.text }))
          (str "Calling KongSwapBackend.claims to check if a retry withdrawal is needed."))
    errors ← claim_all balances_before replies []
    all_claimed errors

  unfoldable pub withdraw_impl : Account → Account → Action W ValidatedBalances (List Error)
  withdraw_impl withdraw_account_0 withdraw_account_1 = do
    from_dex ← attempt withdraw_from_dex
    from_claims ← attempt retry_withdraw_from_dex
    returned ← attempt (return_remaining_assets_to_owner env withdraw_account_0 withdraw_account_1)
    answer_withdrawal (errors_of from_dex ++ errors_of from_claims) returned
