-- ===== src/Agent/Replies.antt =====
-- The replies of the DEX (kong_types.rs), field by field, and the values of ledger metadata. A 64-bit
-- float is its bit pattern. An enum with one constructor, such as `UserBalancesReply::LP`, is the
-- record that the constructor holds.
use sns_kongswap_adaptor.Base.{ℕ, Bool, Option, List}
use sns_kongswap_adaptor.Base.Text.{Text}

-- `icrc_ledger_types`: the program reads the natural numbers and the texts.
pub data MetadataValue : Type 0 where
  nat : ℕ → MetadataValue
  text : Text → MetadataValue
  other : Text → MetadataValue

pub record AddLiquidityAmountsReply : Type 0 where
  pub symbol : Text
  pub chain_0 : Text
  pub address_0 : Text
  pub symbol_0 : Text
  pub amount_0 : ℕ
  pub fee_0 : ℕ
  pub chain_1 : Text
  pub address_1 : Text
  pub symbol_1 : Text
  pub amount_1 : ℕ
  pub fee_1 : ℕ
  pub add_lp_token_amount : ℕ

-- `ICTransferReply`, the content of `TransferReply::IC`.
pub record IcTransferReply : Type 0 where
  pub chain : Text
  pub symbol : Text
  pub is_send : Bool
  pub amount : ℕ
  pub canister_id : Text
  pub block_index : ℕ

pub record TransferIdReply : Type 0 where
  pub transfer_id : ℕ
  pub transfer : IcTransferReply

pub record AddLiquidityReply : Type 0 where
  pub tx_id : ℕ
  pub request_id : ℕ
  pub status : Text
  pub symbol : Text
  pub chain_0 : Text
  pub address_0 : Text
  pub symbol_0 : Text
  pub amount_0 : ℕ
  pub chain_1 : Text
  pub address_1 : Text
  pub symbol_1 : Text
  pub amount_1 : ℕ
  pub add_lp_token_amount : ℕ
  pub transfer_ids : List TransferIdReply
  pub claim_ids : List ℕ
  pub ts : ℕ

-- `ICReply`, the content of `AddTokenReply::IC` and of `UpdateTokenReply::IC`.
pub record TokenReply : Type 0 where
  pub token_id : ℕ
  pub chain : Text
  pub canister_id : Text
  pub name : Text
  pub symbol : Text
  pub decimals : ℕ
  pub fee : ℕ
  pub icrc1 : Bool
  pub icrc2 : Bool
  pub icrc3 : Bool
  pub is_removed : Bool

pub record AddPoolReply : Type 0 where
  pub tx_id : ℕ
  pub pool_id : ℕ
  pub request_id : ℕ
  pub status : Text
  pub name : Text
  pub symbol : Text
  pub chain_0 : Text
  pub address_0 : Text
  pub symbol_0 : Text
  pub amount_0 : ℕ
  pub balance_0 : ℕ
  pub chain_1 : Text
  pub address_1 : Text
  pub symbol_1 : Text
  pub amount_1 : ℕ
  pub balance_1 : ℕ
  pub lp_fee_bps : ℕ
  pub lp_token_symbol : Text
  pub add_lp_token_amount : ℕ
  pub transfer_ids : List TransferIdReply
  pub claim_ids : List ℕ
  pub is_removed : Bool
  pub ts : ℕ

pub record RemoveLiquidityAmountsReply : Type 0 where
  pub symbol : Text
  pub chain_0 : Text
  pub address_0 : Text
  pub symbol_0 : Text
  pub amount_0 : ℕ
  pub lp_fee_0 : ℕ
  pub chain_1 : Text
  pub address_1 : Text
  pub symbol_1 : Text
  pub amount_1 : ℕ
  pub lp_fee_1 : ℕ
  pub remove_lp_token_amount : ℕ

pub record RemoveLiquidityReply : Type 0 where
  pub tx_id : ℕ
  pub request_id : ℕ
  pub status : Text
  pub symbol : Text
  pub chain_0 : Text
  pub address_0 : Text
  pub symbol_0 : Text
  pub amount_0 : ℕ
  pub lp_fee_0 : ℕ
  pub chain_1 : Text
  pub address_1 : Text
  pub symbol_1 : Text
  pub amount_1 : ℕ
  pub lp_fee_1 : ℕ
  pub remove_lp_token_amount : ℕ
  pub transfer_ids : List TransferIdReply
  pub claim_ids : List ℕ
  pub ts : ℕ

pub record UserBalanceLpReply : Type 0 where
  pub symbol : Text
  pub name : Text
  pub lp_token_id : ℕ
  pub balance : ℕ
  pub usd_balance : ℕ
  pub chain_0 : Text
  pub symbol_0 : Text
  pub address_0 : Text
  pub amount_0 : ℕ
  pub usd_amount_0 : ℕ
  pub chain_1 : Text
  pub symbol_1 : Text
  pub address_1 : Text
  pub amount_1 : ℕ
  pub usd_amount_1 : ℕ
  pub ts : ℕ

pub record ClaimsReply : Type 0 where
  pub claim_id : ℕ
  pub status : Text
  pub chain : Text
  pub symbol : Text
  pub canister_id : Option Text
  pub amount : ℕ
  pub fee : ℕ
  pub to_address : Text
  pub desc : Text
  pub ts : ℕ

pub record ClaimReply : Type 0 where
  pub claim_id : ℕ
  pub status : Text
  pub chain : Text
  pub symbol : Text
  pub canister_id : Option Text
  pub amount : ℕ
  pub fee : ℕ
  pub to_address : Text
  pub desc : Text
  pub transfer_ids : List TransferIdReply
  pub ts : ℕ
