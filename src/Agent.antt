-- ===== src/Agent.antt =====
-- agent.rs: the requests that the canister sends to other canisters, with the reply of each.
-- `Request` has a constructor for each type with an `impl Request`; `Response` and `Reply` are the
-- trait's associated types `Response` and `Ok`.
mod Args
mod Replies
pub mod Witness
pub mod Interface
pub mod Requests
pub mod Cdk
pub mod Mock
pub use Args.*
pub use Replies.*
use sns_kongswap_adaptor.Base.{ℕ, List}
use sns_kongswap_adaptor.Base.Text.{Text}
use sns_kongswap_adaptor.Base.Result.{Result}
use sns_kongswap_adaptor.Sns.{Account}

pub data Request : Type 0 where
  balance_of : Account → Request
  transfer : TransferArg → Request
  approve : ApproveArgs → Request
  transfer_from : TransferFromArgs → Request
  metadata : Request
  add_liquidity_amounts : AddLiquidityAmountsArgs → Request
  add_liquidity : AddLiquidityArgs → Request
  add_token : TokenArgs → Request
  update_token : TokenArgs → Request
  add_pool : AddPoolArgs → Request
  remove_liquidity_amounts : RemoveLiquidityArgs → Request
  remove_liquidity : RemoveLiquidityArgs → Request
  user_balances : PrincipalArgs → Request
  claims : PrincipalArgs → Request
  claim : ClaimArgs → Request
  commit_state : Request

-- `Request::Ok`: what a successful call gives to the program.
abbrev pub Reply : Request → Type 0
Reply (balance_of r) = ℕ
Reply (transfer r) = ℕ
Reply (approve r) = ℕ
Reply (transfer_from r) = ℕ
Reply metadata = List (Text × MetadataValue)
Reply (add_liquidity_amounts r) = AddLiquidityAmountsReply
Reply (add_liquidity r) = AddLiquidityReply
Reply (add_token r) = TokenReply
Reply (update_token r) = TokenReply
Reply (add_pool r) = AddPoolReply
Reply (remove_liquidity_amounts r) = RemoveLiquidityAmountsReply
Reply (remove_liquidity r) = RemoveLiquidityReply
Reply (user_balances r) = List UserBalanceLpReply
Reply (claims r) = List ClaimsReply
Reply (claim r) = ClaimReply
Reply commit_state = Unit

-- `Request::Response`: what the called canister answers. The errors of the ICRC ledgers are known by
-- what they print.
abbrev pub Response : Request → Type 0
Response (balance_of r) = ℕ
Response metadata = List (Text × MetadataValue)
Response commit_state = Unit
Response r = Result (Reply r) Text
