-- ===== src/Adaptor/Deposit.antt =====
-- deposit/mod.rs: a deposit takes the two amounts from their owners, approves the DEX for them, and
-- adds a pool or tops it up; what the DEX did not take goes back to the owners.
mod Transfers
pub mod Received
pub mod Accounting
unfoldable pub use Transfers.*
use sns_kongswap_adaptor.Base.{
  ℕ, ◌*◌, Bool, ◌||◌, not, true, none, some, List, [], ◌∷◌, ◌++◌, if◌then◌else◌,
}
use sns_kongswap_adaptor.Base.Text.{Text, str, decimal, text_eq}
use sns_kongswap_adaptor.Base.Result.{Result, ok, err, map_err}
use sns_kongswap_adaptor.Arithmetics.{logged_saturating_sub, saturating_sub, saturating_add}
use sns_kongswap_adaptor.Sns.{principal_eq, Error, backend}
use sns_kongswap_adaptor.Validation.Asset.{symbol_text, decode_nat_to_u64}
use sns_kongswap_adaptor.Validation.Allowance.{ValidatedAllowance}
use sns_kongswap_adaptor.Balances.{ValidatedBalances, treasury_manager, external}
use sns_kongswap_adaptor.AuditTrail.{ns_in_second}
use sns_kongswap_adaptor.Agent.{
  approve, transfer_from, add_liquidity_amounts, add_liquidity, add_pool, ApproveArgs,
  TransferFromArgs, AddPoolArgs, AddLiquidityArgs,
}
use sns_kongswap_adaptor.Machine.{
  Env, Action, ◌>>=◌, ◌>>◌, pure, throw, lift, attempt, map_fail, now, next_operation,
  get_cached_balances,
}
use sns_kongswap_adaptor.Machine.Emit.{emit_transaction}
use sns_kongswap_adaptor.Adaptor.State.{
  assets, charge_fee, move_asset, add_manager_balance, find_discrepency,
}
use sns_kongswap_adaptor.Adaptor.Kong.{token_of, lp_token, maybe_add_token}
use sns_kongswap_adaptor.Adaptor.Ledgers.{get_ledger_balances, return_remaining_assets_to_owner}

-- `map_err(|err| vec![err])`.
abbrev pub one : Error → List Error
one e = e ∷ []

-- What both parts of a deposit have come to.
abbrev pub deposited :
    {W : Type 0}
    → Result (Unit {0}) (List Error)
    → Result (Unit {0}) (List Error)
    → Action W ValidatedBalances (List Error)
deposited (ok x) (ok y) = get_cached_balances
deposited (ok x) (err errs) = throw errs
deposited (err errs) (ok y) = throw errs
deposited (err errs) (err errs_1) = throw (errs ++ errs_1)

module _ {W : Type 0} (env : Env W) where
  unfoldable pub validate_deposit_args :
      ValidatedAllowance → ValidatedAllowance → Action W (Unit {0}) Error
  validate_deposit_args allowance_0 allowance_1 = do
    let new_ledger_0 = allowance_0.asset.ledger_canister_id
    let new_ledger_1 = allowance_1.asset.ledger_canister_id
    (old_asset_0, old_asset_1) ← assets
    let unsupported =
        not (principal_eq new_ledger_0 old_asset_0.ledger_canister_id)
        || not (principal_eq new_ledger_1 old_asset_1.ledger_canister_id)
    if unsupported
        then throw (
            env.errors.new_precondition (
              str "This KongSwapAdaptor only supports "
              ++ (symbol_text old_asset_0
                  ++ (str ":"
                      ++ (symbol_text old_asset_1
                          ++ (str " as token_{0,1} (got ledger_0 "
                              ++ (new_ledger_0.text
                                  ++ (str ", ledger_1 " ++ (new_ledger_1.text ++ str ").")))))))))
        else pure tt

  unfoldable pub topup_pool : ValidatedAllowance → ValidatedAllowance → Action W (ℕ × ℕ) Error
  topup_pool allowance_0 allowance_1 = do
    let fee_0 = allowance_0.asset.ledger_fee_decimals
    let fee_1 = allowance_1.asset.ledger_fee_decimals
    let amount_0 = logged_saturating_sub allowance_0.amount_decimals fee_0
    let token_0 = token_of allowance_0.asset.ledger_canister_id
    let token_1 = token_of allowance_1.asset.ledger_canister_id
    operation ← next_operation
    reply ←
        emit_transaction env operation env.kong_backend_canister_id
          (add_liquidity_amounts
            (record { token_0 = token_0; amount = amount_0; token_1 = token_1 }))
          (str
              "Calling KongSwapBackend.add_liquidity_amounts to estimate how much liquidity can be added for token_1 ="
            ++ (token_1
                ++ (str " when adding token_0 = "
                    ++ (token_0 ++ (str ", amount_0 = " ++ (decimal amount_0 ++ str "."))))))
    let request : AddLiquidityArgs = record {
      token_0 = token_0;
      amount_0 = amount_0;
      tx_id_0 = none;
      token_1 = token_1;
      amount_1 = reply.amount_1;
      tx_id_1 = none;
    }
    operation_1 ← next_operation
    emit_transaction env operation_1 env.kong_backend_canister_id (add_liquidity request) (
        str "Calling KongSwapBackend.add_liquidity to top up liquidity for token_0 = "
        ++ (token_0
            ++ (str ", amount_0 = "
                ++ (decimal amount_0
                    ++ (str ", token_1 = "
                        ++ (token_1
                            ++ (str ", amount_1 = "
                                ++ (env.display.nat reply.amount_1 ++ str "."))))))))
    amount_1 ←
        lift (map_err env.errors.new_postcondition (decode_nat_to_u64 env.display reply.amount_1))
    pure (saturating_add amount_0 fee_0, saturating_add amount_1 fee_1)

  unfoldable pub is_pool_already_deployed_error : Text → Action W Bool (List Error)
  is_pool_already_deployed_error message = do
    symbol ← lp_token
    pure (
        text_eq message (str "LP token " ++ (symbol ++ str " already exists"))
        || text_eq message (str "Pool " ++ (symbol ++ str " already exists")))

  unfoldable pub add_pool_action :
      ValidatedAllowance → ValidatedAllowance → Action W (Unit {0}) Error
  add_pool_action allowance_0 allowance_1 = do
    let ledger_0 = allowance_0.asset.ledger_canister_id
    let ledger_1 = allowance_1.asset.ledger_canister_id
    let amount_0 =
        logged_saturating_sub allowance_0.amount_decimals allowance_0.asset.ledger_fee_decimals
    let amount_1 =
        logged_saturating_sub allowance_1.amount_decimals allowance_1.asset.ledger_fee_decimals
    maybe_add_token env ledger_0
    maybe_add_token env ledger_1
    let request : AddPoolArgs = record {
      token_0 = token_of ledger_0;
      amount_0 = amount_0;
      tx_id_0 = none;
      token_1 = token_of ledger_1;
      amount_1 = amount_1;
      tx_id_1 = none;
      lp_fee_bps = some 30;
    }
    operation ← next_operation
    emit_transaction env operation env.kong_backend_canister_id (add_pool request)
        (str "Calling KongSwapBackend.add_pool to add a new pool.")
    pure tt

  -- The comparison of the ledger balances for both assets.
  unfoldable pub check_deposit :
      ValidatedAllowance
      → ValidatedAllowance
      → ℕ × ℕ
      → ℕ × ℕ
      → ℕ
      → ℕ
      → Action W (Unit {0}) (List Error)
  check_deposit allowance_0 allowance_1 (before_0, before_1) (after_0, after_1) amount_0 amount_1 =
      do
        find_discrepency allowance_0.asset before_0 after_0 amount_0 true
        find_discrepency allowance_1.asset before_1 after_1 amount_1 true

  -- The amounts that have gone to the DEX, after a new pool, or after a top-up of one that was there.
  -- Any other failure of `add_pool` ends the deposit.
  unfoldable pub pool_amounts :
      ValidatedAllowance
      → ValidatedAllowance
      → ℕ × ℕ
      → Result (Unit {0}) Error
      → Action W (ℕ × ℕ) (List Error)
  pool_amounts allowance_0 allowance_1 balances_before (ok added) =
      pure (allowance_0.amount_decimals, allowance_1.amount_decimals)
  pool_amounts allowance_0 allowance_1 balances_before (err e) = do
    deployed ← is_pool_already_deployed_error e.message
    if deployed then map_fail one (topup_pool allowance_0 allowance_1) else do
      balances_after ← get_ledger_balances env
      check_deposit allowance_0 allowance_1 balances_before balances_after 0 0
      throw (record { code = e.code; message = e.message; kind = backend } ∷ [])

  unfoldable pub deposit_into_dex :
      ValidatedAllowance → ValidatedAllowance → Action W (Unit {0}) (List Error)
  deposit_into_dex given_0 given_1 = do
    (approved_0, approved_1) ← map_fail one (set_dex_allowances env given_0 given_1)
    let allowance_0 = record given_0 { amount_decimals = approved_0 }
    let allowance_1 = record given_1 { amount_decimals = approved_1 }
    balances_before ← get_ledger_balances env
    result ← attempt (add_pool_action allowance_0 allowance_1)
    (amount_0, amount_1) ← pool_amounts allowance_0 allowance_1 balances_before result
    move_asset allowance_0.asset amount_0 treasury_manager external
    move_asset allowance_1.asset amount_1 treasury_manager external
    balances_after ← get_ledger_balances env
    check_deposit allowance_0 allowance_1 balances_before balances_after amount_0 amount_1

  unfoldable pub deposit_impl :
      ValidatedAllowance → ValidatedAllowance → Action W ValidatedBalances (List Error)
  deposit_impl given_0 given_1 = do
    (allowance_0, allowance_1) ← map_fail one (transfer_from_owner env given_0 given_1)
    deposit_into_dex_result ← attempt (deposit_into_dex allowance_0 allowance_1)
    returned_amounts_result ←
        attempt
          (return_remaining_assets_to_owner env allowance_0.owner_account allowance_1.owner_account)
    deposited deposit_into_dex_result returned_amounts_result
