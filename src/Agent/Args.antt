-- ===== src/Agent/Args.antt =====
-- The arguments of the calls: icrc_ledger_types for the ledgers, kong_types.rs for the DEX.
use sns_kongswap_adaptor.Base.{ℕ, Option}
use sns_kongswap_adaptor.Base.Text.{Text}
use sns_kongswap_adaptor.Sns.{Account, TreasuryManagerOperation}

-- The memo is the encoding of a treasury manager operation, made by the API's crate.
pub record TransferArg : Type 0 where
  pub from_subaccount : Option Text
  pub to : Account
  pub fee : Option ℕ
  pub created_at_time : Option ℕ
  pub memo : Option TreasuryManagerOperation
  pub amount : ℕ

pub record ApproveArgs : Type 0 where
  pub from_subaccount : Option Text
  pub spender : Account
  pub amount : ℕ
  pub expected_allowance : Option ℕ
  pub expires_at : Option ℕ
  pub fee : Option ℕ
  pub memo : Option TreasuryManagerOperation
  pub created_at_time : Option ℕ

pub record TransferFromArgs : Type 0 where
  pub spender_subaccount : Option Text
  pub from : Account
  pub to : Account
  pub amount : ℕ
  pub fee : Option ℕ
  pub memo : Option TreasuryManagerOperation
  pub created_at_time : Option ℕ

pub record AddLiquidityAmountsArgs : Type 0 where
  pub token_0 : Text
  pub amount : ℕ
  pub token_1 : Text

pub data TxId : Type 0 where
  block_index : ℕ → TxId
  transaction_hash : Text → TxId

pub record AddLiquidityArgs : Type 0 where
  pub token_0 : Text
  pub amount_0 : ℕ
  pub tx_id_0 : Option TxId
  pub token_1 : Text
  pub amount_1 : ℕ
  pub tx_id_1 : Option TxId

-- `AddTokenArgs` and `UpdateTokenArgs`.
pub record TokenArgs : Type 0 where
  pub token : Text

pub record AddPoolArgs : Type 0 where
  pub token_0 : Text
  pub amount_0 : ℕ
  pub tx_id_0 : Option TxId
  pub token_1 : Text
  pub amount_1 : ℕ
  pub tx_id_1 : Option TxId
  pub lp_fee_bps : Option ℕ

-- `RemoveLiquidityAmountsArgs` and `RemoveLiquidityArgs`.
pub record RemoveLiquidityArgs : Type 0 where
  pub token_0 : Text
  pub token_1 : Text
  pub remove_lp_token_amount : ℕ

-- `UserBalancesArgs` and `ClaimsArgs`.
pub record PrincipalArgs : Type 0 where
  pub principal_id : Text

pub record ClaimArgs : Type 0 where
  pub claim_id : ℕ
