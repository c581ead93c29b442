-- ===== src/Adaptor/Deposit/Transfers.antt =====
-- deposit/mod.rs, the transfers of a deposit: from the owners to the canister, and the approval of the
-- DEX for what has arrived.
use sns_kongswap_adaptor.Base.{ℕ, ◌*◌, none, some, ◌++◌}
use sns_kongswap_adaptor.Base.Text.{str}
use sns_kongswap_adaptor.Arithmetics.{saturating_sub, saturating_add}
use sns_kongswap_adaptor.Sns.{Error}
use sns_kongswap_adaptor.Validation.Asset.{symbol_text}
use sns_kongswap_adaptor.Validation.Allowance.{ValidatedAllowance}
use sns_kongswap_adaptor.AuditTrail.{ns_in_second}
use sns_kongswap_adaptor.Agent.{approve, transfer_from, ApproveArgs, TransferFromArgs}
use sns_kongswap_adaptor.Machine.{Env, Action, ◌>>=◌, ◌>>◌, pure, now, next_operation}
use sns_kongswap_adaptor.Machine.Emit.{emit_transaction}
use sns_kongswap_adaptor.Adaptor.State.{charge_fee, add_manager_balance}

abbrev pub one_hour : ℕ
one_hour = 60 * 60 * ns_in_second

module _ {W : Type 0} (env : Env W) where
  unfoldable pub transfer_from_owner_impl : ValidatedAllowance → Action W ℕ Error
  transfer_from_owner_impl allowance = do
    let asset = allowance.asset
    let fee_decimals = asset.ledger_fee_decimals
    let received_amount_decimals = saturating_sub allowance.amount_decimals fee_decimals
    operation ← next_operation
    let request : TransferFromArgs = record {
      spender_subaccount = none;
      from = allowance.owner_account;
      to = record { owner = env.id; subaccount = none };
      amount = received_amount_decimals;
      fee = some fee_decimals;
      memo = some operation;
      created_at_time = none;
    }
    emit_transaction env operation asset.ledger_canister_id (transfer_from request) (
        str "Calling ICRC2 transfer_from to receive "
        ++ (symbol_text asset ++ str " from the treasury owner."))
    add_manager_balance asset allowance.amount_decimals
    charge_fee asset
    pure received_amount_decimals

  unfoldable pub transfer_from_owner :
      ValidatedAllowance
      → ValidatedAllowance
      → Action W (ValidatedAllowance × ValidatedAllowance) Error
  transfer_from_owner allowance_0 allowance_1 = do
    received_0 ← transfer_from_owner_impl allowance_0
    received_1 ← transfer_from_owner_impl allowance_1
    pure (
      record allowance_0 { amount_decimals = received_0 },
      record allowance_1 { amount_decimals = received_1 },
    )

  unfoldable pub set_dex_allowances_impl : ValidatedAllowance → Action W ℕ Error
  set_dex_allowances_impl allowance = do
    let asset = allowance.asset
    let fee_decimals = asset.ledger_fee_decimals
    let approved_amount_decimals = saturating_sub allowance.amount_decimals fee_decimals
    time_ns ← now env
    let request : ApproveArgs = record {
      from_subaccount = none;
      spender = record { owner = env.kong_backend_canister_id; subaccount = none };
      amount = approved_amount_decimals;
      expected_allowance = some 0;
      expires_at = some (saturating_add time_ns one_hour);
      fee = some fee_decimals;
      memo = none;
      created_at_time = none;
    }
    operation ← next_operation
    emit_transaction env operation asset.ledger_canister_id (approve request) (
        str "Calling ICRC2 approve to set KongSwapBackend as spender for "
        ++ (symbol_text asset ++ str "."))
    charge_fee asset
    pure approved_amount_decimals

  unfoldable pub set_dex_allowances :
      ValidatedAllowance → ValidatedAllowance → Action W (ℕ × ℕ) Error
  set_dex_allowances allowance_0 allowance_1 = do
    approved_0 ← set_dex_allowances_impl allowance_0
    approved_1 ← set_dex_allowances_impl allowance_1
    pure (approved_0, approved_1)
