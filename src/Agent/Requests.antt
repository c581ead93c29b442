-- ===== src/Agent/Requests.antt =====
-- The implementation of the trait for each request that the canister sends.
pub mod Icrc
pub mod Dex
pub mod Own
use sns_kongswap_adaptor.Base.Text.{Text}
use sns_kongswap_adaptor.Base.Result.{Result}
use sns_kongswap_adaptor.Sns.{Principal}
use sns_kongswap_adaptor.Agent.{
  Request, Reply, Response, commit_state, balance_of, transfer, approve, transfer_from, metadata,
  add_liquidity_amounts, add_liquidity, add_token, update_token, add_pool, remove_liquidity_amounts,
  remove_liquidity, user_balances, claims, claim,
}
use sns_kongswap_adaptor.Agent.Interface.{Implementation, Witnessed, Candid, Bytes}
use sns_kongswap_adaptor.Agent.Witness.{Printer}
use sns_kongswap_adaptor.Agent.Requests.Icrc.{
  balance_of_request, transfer_request, approve_request, transfer_from_request, metadata_request,
}
use sns_kongswap_adaptor.Agent.Requests.Dex.{
  add_liquidity_amounts_request, add_liquidity_request, add_token_request, update_token_request,
  add_pool_request, remove_liquidity_amounts_request, remove_liquidity_request,
  user_balances_request, claims_request, claim_request,
}
use sns_kongswap_adaptor.Agent.Requests.Own.{commit_state_request}

module _ (printer : Printer) where
  abbrev pub implementation : (r : Request) → Implementation (Response r) (Witnessed (Reply r))
  implementation (balance_of r) = balance_of_request printer r
  implementation (transfer r) = transfer_request r
  implementation (approve r) = approve_request r
  implementation (transfer_from r) = transfer_from_request r
  implementation metadata = metadata_request printer
  implementation (add_liquidity_amounts r) = add_liquidity_amounts_request printer r
  implementation (add_liquidity r) = add_liquidity_request printer r
  implementation (add_token r) = add_token_request printer r
  implementation (update_token r) = update_token_request printer r
  implementation (add_pool r) = add_pool_request printer r
  implementation (remove_liquidity_amounts r) = remove_liquidity_amounts_request printer r
  implementation (remove_liquidity r) = remove_liquidity_request printer r
  implementation (user_balances r) = user_balances_request printer r
  implementation (claims r) = claims_request printer r
  implementation (claim r) = claim_request printer r
  implementation commit_state = commit_state_request

  unfoldable pub method : Request → Text
  method r = (implementation r).method

  unfoldable pub payload : Candid → Request → Result Bytes Text
  payload candid r = (implementation r).payload candid

  unfoldable pub transaction_witness : (r : Request) → Principal → Response r → Witnessed (Reply r)
  transaction_witness r = (implementation r).transaction_witness
