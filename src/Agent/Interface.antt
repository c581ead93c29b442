-- ===== src/Agent/Interface.antt =====
-- agent.rs: the trait `Request`, as a record that each implementation fills; and candid, the crate
-- that encodes the arguments and the replies of calls, as a parameter.
use sns_kongswap_adaptor.Base.{ℕ, List}
use sns_kongswap_adaptor.Base.Text.{Text}
use sns_kongswap_adaptor.Base.Result.{Result}
use sns_kongswap_adaptor.Sns.{Principal, TransactionWitness, DepositRequest, WithdrawRequest}
use sns_kongswap_adaptor.Agent.{Request}

abbrev pub Bytes : Type 0
Bytes = List ℕ

-- What the program has candid encode: a request as the record that it is, or its fields as the
-- arguments of the call.
pub data Argument : Type 0 where
  record_of : Request → Argument
  amounts : Text → ℕ → Text → Argument
  removal : Text → Text → ℕ → Argument
  text : Text → Argument
  nat64 : ℕ → Argument
  deposit_request : DepositRequest → Argument
  withdraw_request : WithdrawRequest → Argument
  balances_request audit_trail_request : Argument

-- An error is known by what it prints. The encoding of `()` cannot fail.
pub record Candid : Type 0 where
  pub encode : Argument → Result Bytes Text
  pub encoded_unit : Bytes

-- `impl Request for ..`, with the type of what `transaction_witness` makes of a response.
pub record Implementation (Response Witnessed : Type 0) : Type 0 where
  pub method : Text
  pub payload : Candid → Result Bytes Text
  pub transaction_witness : Principal → Response → Witnessed

-- A witness for the audit trail and the reply to go on with, or a message.
abbrev pub Witnessed : Type 0 → Type 0
Witnessed Ok = Result (TransactionWitness × Ok) Text
