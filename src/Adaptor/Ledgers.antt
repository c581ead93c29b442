-- ===== src/Adaptor/Ledgers.antt =====
-- ledger_api.rs: the balances of the canister on the two ledgers, and the return of what it holds
-- there to the owner. The subtraction of the fee is an unchecked one on u64.
pub mod Returned
use sns_kongswap_adaptor.Base.{
  ℕ, Bool, ◌&&◌, ltb, none, some, List, [], ◌∷◌, ◌++◌, if◌then◌else◌, ◌==◌,
}
use sns_kongswap_adaptor.Base.Text.{str, decimal}
use sns_kongswap_adaptor.Base.Result.{Result, ok, err, map_err}
use sns_kongswap_adaptor.Arithmetics.{wrapping_sub}
use sns_kongswap_adaptor.Sns.{Account, Error}
use sns_kongswap_adaptor.Validation.Asset.{ValidatedAsset, symbol_text, decode_nat_to_u64}
use sns_kongswap_adaptor.Balances.{treasury_manager, treasury_owner}
use sns_kongswap_adaptor.Agent.{balance_of, transfer, TransferArg}
use sns_kongswap_adaptor.Machine.{
  Env, Action, ◌>>=◌, ◌>>◌, pure, throw, trap, lift, attempt, now, next_operation,
}
use sns_kongswap_adaptor.Machine.Emit.{emit_transaction}
use sns_kongswap_adaptor.Adaptor.State.{assets, move_asset, postcondition_error}

-- The `match` on the two balances.
abbrev pub both_balances : Result ℕ Error → Result ℕ Error → Result (ℕ × ℕ) (List Error)
both_balances (ok balance_0) (ok balance_1) = ok (balance_0, balance_1)
both_balances (err e) (ok balance_1) = err (e ∷ [])
both_balances (ok balance_0) (err e) = err (e ∷ [])
both_balances (err e_0) (err e_1) = err (e_0 ∷ e_1 ∷ [])

-- The errors that a loop over the two assets pushes.
abbrev pub pushed : Result (Unit {0}) Error → List Error
pushed (ok done) = []
pushed (err e) = e ∷ []

abbrev pub all_returned : {W : Type 0} → List Error → Action W (Unit {0}) (List Error)
all_returned [] = pure tt
all_returned (e ∷ es) = throw (e ∷ es)

module _ {W : Type 0} (env : Env W) where
  unfoldable pub get_ledger_balance_decimals : ValidatedAsset → Action W ℕ Error
  get_ledger_balance_decimals asset = do
    operation ← next_operation
    balance_decimals ←
        emit_transaction env operation asset.ledger_canister_id
          (balance_of (record { owner = env.id; subaccount = none }))
          (str "Calling "
            ++ (asset.ledger_canister_id.text
                ++ (str ".icrc1_balance_of to get the remaining balance of "
                    ++ (symbol_text asset ++ str "."))))
    lift (map_err postcondition_error (decode_nat_to_u64 env.display balance_decimals))

  unfoldable pub get_ledger_balances : Action W (ℕ × ℕ) (List Error)
  get_ledger_balances = do
    (asset_0, asset_1) ← assets
    balance_0 ← attempt (get_ledger_balance_decimals asset_0)
    balance_1 ← attempt (get_ledger_balance_decimals asset_1)
    lift (both_balances balance_0 balance_1)

  -- The u64 subtraction of the fee: a build that checks for overflow panics below 0, and any other
  -- build wraps around.
  abbrev pub underflows : ℕ → ℕ → Bool
  underflows amount_decimals fee_decimals = env.overflow_checks && ltb amount_decimals fee_decimals

  unfoldable pub return_remaining_assets_to_owner_impl :
      ValidatedAsset → ℕ → Account → Action W (Unit {0}) Error
  return_remaining_assets_to_owner_impl asset amount_decimals withdraw_account =
      if amount_decimals == 0 then pure tt else do
        operation ← next_operation
        created_at ← now env
        if underflows amount_decimals asset.ledger_fee_decimals then trap else do
          let request : TransferArg = record {
            from_subaccount = none;
            to = withdraw_account;
            fee = some asset.ledger_fee_decimals;
            created_at_time = some created_at;
            memo = some operation;
            amount = wrapping_sub amount_decimals asset.ledger_fee_decimals;
          }
          emit_transaction env operation asset.ledger_canister_id (transfer request) (
              str "Calling "
              ++ (asset.ledger_canister_id.text
                  ++ (str ".icrc1_transfer to return "
                      ++ (decimal amount_decimals
                          ++ (str " "
                              ++ (symbol_text asset
                                  ++ (str " from KongSwapAdaptor to "
                                      ++ (env.printer.account withdraw_account ++ str "."))))))))
          move_asset asset amount_decimals treasury_manager treasury_owner

  unfoldable pub return_remaining_assets_to_owner :
      Account → Account → Action W (Unit {0}) (List Error)
  return_remaining_assets_to_owner withdraw_account_0 withdraw_account_1 = do
    (asset_0, asset_1) ← assets
    (amount_0, amount_1) ← get_ledger_balances
    result_0 ← attempt (return_remaining_assets_to_owner_impl asset_0 amount_0 withdraw_account_0)
    result_1 ← attempt (return_remaining_assets_to_owner_impl asset_1 amount_1 withdraw_account_1)
    all_returned (pushed result_0 ++ pushed result_1)
