-- ===== src/Sns.antt =====
-- The types of the treasury manager API that the canister's code builds and reads, as
-- kongswap_adaptor/kongswap-adaptor.did declares them. A principal is known by its textual form,
-- which is all that the program compares and prints; candid's `Nat` is a natural number, a blob a
-- list of bytes, and a `BTreeMap` an association list.
use sns_kongswap_adaptor.Base.{ℕ, Bool, true, false, Option, List}
use sns_kongswap_adaptor.Base.Text.{Text, text_eq}
use sns_kongswap_adaptor.Base.Result.{Result}

pub record Principal : Type 0 where
  pub text : Text

pub record Account : Type 0 where
  pub owner : Principal
  pub subaccount : Option Text

pub data Asset : Type 0 where
  -- symbol, ledger_canister_id, ledger_fee_decimals
  token : Text → Principal → ℕ → Asset

pub record Allowance : Type 0 where
  pub asset : Asset
  pub amount_decimals : ℕ
  pub owner_account : Account

pub record TreasuryManagerInit : Type 0 where
  pub allowances : List Allowance

pub data TreasuryManagerArg : Type 0 where
  init : TreasuryManagerInit → TreasuryManagerArg
  upgrade : TreasuryManagerArg

pub record DepositRequest : Type 0 where
  pub allowances : List Allowance

pub record WithdrawRequest : Type 0 where
  pub withdraw_accounts : Option (List (Principal × Account))

pub data ErrorKind : Type 0 where
  precondition postcondition backend temporarily_unavailable : ErrorKind
  call : Text → Principal → ErrorKind
  generic : Text → ErrorKind

pub record Error : Type 0 where
  pub code : ℕ
  pub message : Text
  pub kind : ErrorKind

pub record Balance : Type 0 where
  pub amount_decimals : ℕ
  pub account : Option Account
  pub name : Option Text

pub record BalanceBook : Type 0 where
  pub treasury_owner : Option Balance
  pub treasury_manager : Option Balance
  pub external_custodian : Option Balance
  pub fee_collector : Option Balance
  pub payees : Option Balance
  pub payers : Option Balance
  pub suspense : Option Balance

pub record Transfer : Type 0 where
  pub ledger_canister_id : Text
  pub amount_decimals : ℕ
  pub block_index : ℕ
  pub sender : Option Account
  pub receiver : Option Account

pub data TransactionWitness : Type 0 where
  pending : TransactionWitness
  ledger : List Transfer → TransactionWitness
  non_ledger : Text → TransactionWitness

pub data Operation : Type 0 where
  withdraw deposit issue_reward balances : Operation

unfoldable pub operation_eq : Operation → Operation → Bool
operation_eq Operation.withdraw Operation.withdraw = true
operation_eq Operation.deposit Operation.deposit = true
operation_eq Operation.issue_reward Operation.issue_reward = true
operation_eq Operation.balances Operation.balances = true
operation_eq _ _ = false

pub record Step : Type 0 where
  pub index : ℕ
  pub is_final : Bool

pub record TreasuryManagerOperation : Type 0 where
  pub operation : Operation
  pub step : Step

pub record Transaction : Type 0 where
  pub timestamp_ns : ℕ
  pub canister_id : Principal
  pub result : Result TransactionWitness Error
  pub purpose : Text
  pub treasury_manager_operation : TreasuryManagerOperation

-- Equality of principals is equality of their textual forms.
abbrev pub principal_eq : Principal → Principal → Bool
principal_eq p q = text_eq p.text q.text
