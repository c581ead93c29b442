-- ===== src/Agent/Requests/Dex.antt =====
-- kong_types.rs: the calls of the DEX.
use sns_kongswap_adaptor.Base.{List}
use sns_kongswap_adaptor.Base.Text.{Text, str}
use sns_kongswap_adaptor.Base.Result.{Result, ◌>>=◌}
use sns_kongswap_adaptor.Agent.{
  add_liquidity_amounts, add_liquidity, add_token, update_token, add_pool, remove_liquidity_amounts,
  remove_liquidity, user_balances, claims, claim, AddLiquidityAmountsArgs, AddLiquidityArgs,
  TokenArgs, AddPoolArgs, RemoveLiquidityArgs, PrincipalArgs, ClaimArgs, AddLiquidityAmountsReply,
  AddLiquidityReply, TokenReply, AddPoolReply, RemoveLiquidityAmountsReply, RemoveLiquidityReply,
  UserBalanceLpReply, ClaimsReply, ClaimReply,
}
use sns_kongswap_adaptor.Agent.Interface.{
  Implementation, Witnessed, record_of, amounts, removal, text, nat64,
}
use sns_kongswap_adaptor.Agent.Witness.{Printer, noted, settled}

-- The replies that move tokens must have the status "Success".
module _ (printer : Printer) where
  abbrev pub add_liquidity_amounts_request :
      AddLiquidityAmountsArgs
      → Implementation (Result AddLiquidityAmountsReply Text) (Witnessed AddLiquidityAmountsReply)
  add_liquidity_amounts_request r = record {
    method = str "add_liquidity_amounts";
    payload = λ candid. candid.encode (amounts r.token_0 r.amount r.token_1);
    transaction_witness = λ canister_id response. noted printer (add_liquidity_amounts r) response;
  }

  abbrev pub add_liquidity_request :
      AddLiquidityArgs
      → Implementation (Result AddLiquidityReply Text) (Witnessed AddLiquidityReply)
  add_liquidity_request r = record {
    method = str "add_liquidity";
    payload = λ candid. candid.encode (record_of (add_liquidity r));
    transaction_witness = λ canister_id response. response >>= λ reply.
        settled printer (add_liquidity r) (str "Failed to add liquidity: ") reply.status
          reply.transfer_ids reply;
  }

  abbrev pub add_token_request :
      TokenArgs → Implementation (Result TokenReply Text) (Witnessed TokenReply)
  add_token_request r = record {
    method = str "add_token";
    payload = λ candid. candid.encode (record_of (add_token r));
    transaction_witness = λ canister_id response. noted printer (add_token r) response;
  }

  abbrev pub update_token_request :
      TokenArgs → Implementation (Result TokenReply Text) (Witnessed TokenReply)
  update_token_request r = record {
    method = str "update_token";
    payload = λ candid. candid.encode (record_of (update_token r));
    transaction_witness = λ canister_id response. noted printer (update_token r) response;
  }

  abbrev pub add_pool_request :
      AddPoolArgs → Implementation (Result AddPoolReply Text) (Witnessed AddPoolReply)
  add_pool_request r = record {
    method = str "add_pool";
    payload = λ candid. candid.encode (record_of (add_pool r));
    transaction_witness = λ canister_id response. response >>= λ reply.
        settled printer (add_pool r) (str "Failed to add pool: ") reply.status reply.transfer_ids
          reply;
  }

  abbrev pub remove_liquidity_amounts_request :
      RemoveLiquidityArgs
      → Implementation
          (Result RemoveLiquidityAmountsReply Text)
          (Witnessed RemoveLiquidityAmountsReply)
  remove_liquidity_amounts_request r = record {
    method = str "remove_liquidity_amounts";
    payload = λ candid. candid.encode (removal r.token_0 r.token_1 r.remove_lp_token_amount);
    transaction_witness =
        λ canister_id response. noted printer (remove_liquidity_amounts r) response;
  }

  abbrev pub remove_liquidity_request :
      RemoveLiquidityArgs
      → Implementation (Result RemoveLiquidityReply Text) (Witnessed RemoveLiquidityReply)
  remove_liquidity_request r = record {
    method = str "remove_liquidity";
    payload = λ candid. candid.encode (record_of (remove_liquidity r));
    transaction_witness = λ canister_id response. response >>= λ reply.
        settled printer (remove_liquidity r) (str "Failed to remove liquidity: ") reply.status
          reply.transfer_ids reply;
  }

  abbrev pub user_balances_request :
      PrincipalArgs
      → Implementation (Result (List UserBalanceLpReply) Text) (Witnessed (List UserBalanceLpReply))
  user_balances_request r = record {
    method = str "user_balances";
    payload = λ candid. candid.encode (text r.principal_id);
    transaction_witness = λ canister_id response. noted printer (user_balances r) response;
  }

  abbrev pub claims_request :
      PrincipalArgs → Implementation (Result (List ClaimsReply) Text) (Witnessed (List ClaimsReply))
  claims_request r = record {
    method = str "claims";
    payload = λ candid. candid.encode (text r.principal_id);
    transaction_witness = λ canister_id response. noted printer (claims r) response;
  }

  abbrev pub claim_request :
      ClaimArgs → Implementation (Result ClaimReply Text) (Witnessed ClaimReply)
  claim_request r = record {
    method = str "claim";
    payload = λ candid. candid.encode (nat64 r.claim_id);
    transaction_witness = λ canister_id response. response >>= λ reply.
        settled printer (claim r) (str "Failed to claim: ") reply.status reply.transfer_ids reply;
  }
