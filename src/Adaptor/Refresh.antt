-- ===== src/Adaptor/Refresh.antt =====
-- balances.rs, the methods of `KongSwapAdaptor`, and rewards.rs: the metadata of the ledgers and the
-- balances at the DEX are fetched anew, and what the canister holds goes back to the owners.
use sns_kongswap_adaptor.Base.{ℕ, ◌+◌, Option, none, some, List, [], ◌∷◌, ◌++◌, if◌then◌else◌}
use sns_kongswap_adaptor.Base.Text.{Text, str, decimal, text_eq}
use sns_kongswap_adaptor.Base.Result.{Result, ok, err, map_err}
use sns_kongswap_adaptor.Sns.{Principal, Error}
use sns_kongswap_adaptor.Validation.Symbol.{ValidatedSymbol, try_from_text}
use sns_kongswap_adaptor.Validation.Asset.{
  ValidatedAsset, set_symbol, set_ledger_fee_decimals, symbol_text, decode_nat_to_u64,
}
use sns_kongswap_adaptor.Balances.{refresh_asset, set_external_custodian_balance}
use sns_kongswap_adaptor.Agent.{
  MetadataValue, nat, text, update_token, metadata, remove_liquidity_amounts,
}
use sns_kongswap_adaptor.Machine.{
  Env, Action, ◌>>=◌, lift, attempt, next_operation, with_balances_mut,
}
use sns_kongswap_adaptor.Machine.Emit.{emit_transaction}
use sns_kongswap_adaptor.Adaptor.State.{assets, owner_accounts, postcondition_error}
use sns_kongswap_adaptor.Adaptor.Kong.{token_of, lp_balance}
use sns_kongswap_adaptor.Adaptor.Ledgers.{return_remaining_assets_to_owner}

-- The first value of a key.
unfoldable pub find_value : Text → List (Text × MetadataValue) → Option MetadataValue
find_value key [] = none
find_value key ((k, v) ∷ rest) = if text_eq k key then some v else find_value key rest

unfoldable pub missing_metadata : Principal → Text → Error
missing_metadata ledger key = postcondition_error (
    str "Ledger "
    ++ (ledger.text ++ (str " icrc1_metadata response does not have an `" ++ (key ++ str "`."))))

-- A symbol that does not validate leaves the old one.
abbrev pub with_symbol : Result ValidatedSymbol Text → ValidatedAsset → ValidatedAsset
with_symbol (ok new_symbol) asset = (set_symbol new_symbol asset).0
with_symbol (err e) asset = asset

-- A fee beyond 64 bits leaves the old one.
abbrev pub with_fee : Result ℕ Text → ValidatedAsset → ValidatedAsset
with_fee (ok new_fee) asset = (set_ledger_fee_decimals new_fee asset).0
with_fee (err e) asset = asset

unfoldable pub read_symbol : Option MetadataValue → ValidatedAsset → Result ValidatedAsset Error
read_symbol (some (text new_symbol)) asset = ok (with_symbol (try_from_text new_symbol) asset)
read_symbol _ asset = err (missing_metadata asset.ledger_canister_id (str "icrc1:symbol"))

module _ {W : Type 0} (env : Env W) where
  unfoldable pub read_fee : Option MetadataValue → ValidatedAsset → Result ValidatedAsset Error
  read_fee (some (nat new_fee)) asset = ok (with_fee (decode_nat_to_u64 env.display new_fee) asset)
  read_fee _ asset = err (missing_metadata asset.ledger_canister_id (str "icrc1:fee"))

  unfoldable pub refresh_ledger_metadata_impl : ℕ → ValidatedAsset → Action W ValidatedAsset Error
  refresh_ledger_metadata_impl asset_id asset = do
    let ledger = asset.ledger_canister_id
    let place = decimal asset_id ++ (str " (" ++ (ledger.text ++ str ")."))
    operation ← next_operation
    updated ← attempt (
        emit_transaction env operation env.kong_backend_canister_id
          (update_token (record { token = token_of ledger }))
          (str "Calling KongSwapBackend.update_token for ledger #" ++ place))
    operation_1 ← next_operation
    reply ←
        emit_transaction env operation_1 ledger metadata
          (str "Refreshing metadata for ledger #" ++ place)
    renamed ← lift (read_symbol (find_value (str "icrc1:symbol") reply) asset)
    lift (read_fee (find_value (str "icrc1:fee") reply) renamed)

  unfoldable pub refresh_ledger_metadata : Action W (Unit {0}) Error
  refresh_ledger_metadata = do
    (asset_0, asset_1) ← assets
    new_0 ← refresh_ledger_metadata_impl 0 asset_0
    new_1 ← refresh_ledger_metadata_impl 1 asset_1
    with_balances_mut (λ b. refresh_asset 1 new_1 (refresh_asset 0 new_0 b))

  unfoldable pub refresh_balances_impl : Action W (Unit {0}) Error
  refresh_balances_impl = do
    remove_lp_token_amount ← lp_balance env
    (asset_0, asset_1) ← assets
    operation ← next_operation
    reply ←
        emit_transaction env operation env.kong_backend_canister_id
          (remove_liquidity_amounts (record {
            token_0 = symbol_text asset_0;
            token_1 = symbol_text asset_1;
            remove_lp_token_amount = remove_lp_token_amount;
          }))
          (str
              "Calling KongSwapBackend.remove_liquidity_amounts to estimate how much liquidity can be removed for LP token amount "
            ++ (env.display.nat remove_lp_token_amount ++ str "."))
    balance_0 ← lift (
        map_err postcondition_error
          (decode_nat_to_u64 env.display (reply.amount_0 + reply.lp_fee_0)))
    balance_1 ← lift (
        map_err postcondition_error
          (decode_nat_to_u64 env.display (reply.amount_1 + reply.lp_fee_1)))
    with_balances_mut (λ b.
        set_external_custodian_balance asset_1 balance_1
          (set_external_custodian_balance asset_0 balance_0 b))

  unfoldable pub issue_rewards_impl : Action W (Unit {0}) (List Error)
  issue_rewards_impl = do
    (withdraw_account_0, withdraw_account_1) ← owner_accounts
    return_remaining_assets_to_owner env withdraw_account_0 withdraw_account_1
