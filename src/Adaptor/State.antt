-- ===== src/Adaptor/State.antt =====
-- state.rs: the getters, and the mutations of the balances and the audit trail as actions; and the
-- error with which the code reports a reply that it cannot read.
use sns_kongswap_adaptor.Base.{ℕ, Bool, Option, none, some, if◌then◌else◌}
use sns_kongswap_adaptor.Base.Text.{Text, text_eq}
use sns_kongswap_adaptor.Base.Result.{Result, ok, err}
use sns_kongswap_adaptor.Sns.{Principal, Account, Error, postcondition, Operation}
use sns_kongswap_adaptor.Validation.Asset.{ValidatedAsset}
use sns_kongswap_adaptor.Balances.{ValidatedBalances, Party}
use sns_kongswap_adaptor.Balances
use sns_kongswap_adaptor.AuditTrail
use sns_kongswap_adaptor.Machine.{
  Action, ◌>>=◌, pure, trap, modify, with_balances_mut, get_cached_balances,
}

-- tx_error_codes.rs
pub data TransactionErrorCodes : Type 0 where
  pre_condition_code post_condition_code call_failed_code : TransactionErrorCodes
  backend_code temporary_unavailable_code generic_error_code : TransactionErrorCodes

unfoldable pub error_code : TransactionErrorCodes → ℕ
error_code TransactionErrorCodes.pre_condition_code = 0
error_code TransactionErrorCodes.post_condition_code = 1
error_code TransactionErrorCodes.call_failed_code = 2
error_code TransactionErrorCodes.backend_code = 3
error_code TransactionErrorCodes.temporary_unavailable_code = 4
error_code TransactionErrorCodes.generic_error_code = 5

abbrev pub postcondition_error : Text → Error
unfolding error_code
postcondition_error message = record {
  code = error_code TransactionErrorCodes.post_condition_code;
  message = message;
  kind = postcondition;
}

abbrev pub pick_asset : Text → ValidatedAsset × ValidatedAsset → Option ValidatedAsset
pick_asset canister_id (asset_0, asset_1) =
    if text_eq asset_0.ledger_canister_id.text canister_id
    then some asset_0
    else if text_eq asset_1.ledger_canister_id.text canister_id
    then some asset_1
    else none

module _ {W E : Type 0} where
  unfoldable pub assets : Action W (ValidatedAsset × ValidatedAsset) E
  assets = do balances ← get_cached_balances; pure (balances.asset_0, balances.asset_1)

  unfoldable pub owner_accounts : Action W (Account × Account) E
  owner_accounts = do
    balances ← get_cached_balances
    pure (
      balances.asset_0_balance.treasury_owner.account,
      balances.asset_1_balance.treasury_owner.account,
    )

  unfoldable pub ledgers : Action W (Principal × Principal) E
  ledgers = do
    balances ← get_cached_balances
    pure (balances.asset_0.ledger_canister_id, balances.asset_1.ledger_canister_id)

  unfoldable pub charge_fee : ValidatedAsset → Action W (Unit {0}) E
  charge_fee asset = with_balances_mut (Balances.charge_approval_fee asset)

  unfoldable pub get_asset_for_ledger : Text → Action W (Option ValidatedAsset) E
  get_asset_for_ledger canister_id = do both ← assets; pure (pick_asset canister_id both)

  unfoldable pub move_asset : ValidatedAsset → ℕ → Party → Party → Action W (Unit {0}) E
  move_asset asset amount from to = with_balances_mut (Balances.move_asset asset from to amount)

  unfoldable pub add_manager_balance : ValidatedAsset → ℕ → Action W (Unit {0}) E
  add_manager_balance asset amount = with_balances_mut (Balances.add_manager_balance asset amount)

  unfoldable pub find_discrepency : ValidatedAsset → ℕ → ℕ → ℕ → Bool → Action W (Unit {0}) E
  find_discrepency asset balance_before balance_after transferred_amount is_deposit =
      with_balances_mut (λ balances.
        if is_deposit
        then Balances.find_deposit_discrepency asset balance_before balance_after transferred_amount
            balances
        else Balances.find_withdraw_discrepency asset balance_before balance_after
            transferred_amount balances)

  -- `finalize_audit_trail_transaction` reads only the operation of the context.
  unfoldable pub finalize_audit_trail_transaction : Operation → Action W (Unit {0}) E
  finalize_audit_trail_transaction operation = modify (λ c. record c {
    audit_trail = AuditTrail.finalize_audit_trail_transaction operation c.audit_trail;
  })

  -- `unwrap`.
  unfoldable pub unwrap : {A F : Type 0} → Result A F → Action W A E
  unwrap (ok a) = pure a
  unwrap (err e) = trap
