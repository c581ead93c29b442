-- ===== src/TestHelpers/Liquidity.antt =====
-- test_helpers/mod.rs: the builders for the addition of liquidity to a pool that is there, and for the
-- estimates.
use sns_kongswap_adaptor.Base.{ℕ, none, []}
use sns_kongswap_adaptor.Base.Text.{Text}
use sns_kongswap_adaptor.Agent.{
  AddLiquidityAmountsArgs, AddLiquidityArgs, AddLiquidityAmountsReply, AddLiquidityReply,
  RemoveLiquidityAmountsReply,
}
use sns_kongswap_adaptor.TestHelpers.{success_status}

abbrev pub make_add_liquidity_amounts_request : ℕ → Text → Text → AddLiquidityAmountsArgs
make_add_liquidity_amounts_request amount token_0 token_1 = record {
  token_0 = token_0;
  amount = amount;
  token_1 = token_1;
}

abbrev pub make_add_liquidity_amounts_reply : ℕ → ℕ → Text → Text → AddLiquidityAmountsReply
make_add_liquidity_amounts_reply amount_0 amount_1 symbol_0 symbol_1 = record {
  symbol = [];
  chain_0 = [];
  address_0 = [];
  symbol_0 = symbol_0;
  amount_0 = amount_0;
  fee_0 = 0;
  chain_1 = [];
  address_1 = [];
  symbol_1 = symbol_1;
  amount_1 = amount_1;
  fee_1 = 0;
  add_lp_token_amount = 0;
}

abbrev pub make_add_liquidity_request : ℕ → ℕ → Text → Text → AddLiquidityArgs
make_add_liquidity_request amount_0 amount_1 token_0 token_1 = record {
  token_0 = token_0;
  amount_0 = amount_0;
  tx_id_0 = none;
  token_1 = token_1;
  amount_1 = amount_1;
  tx_id_1 = none;
}

abbrev pub make_add_liquidity_reply : ℕ → ℕ → Text → Text → AddLiquidityReply
make_add_liquidity_reply amount_0 amount_1 symbol_0 symbol_1 = record {
  tx_id = 0;
  request_id = 0;
  status = success_status;
  symbol = [];
  chain_0 = [];
  address_0 = [];
  symbol_0 = symbol_0;
  amount_0 = amount_0;
  chain_1 = [];
  address_1 = [];
  symbol_1 = symbol_1;
  amount_1 = amount_1;
  add_lp_token_amount = 0;
  transfer_ids = [];
  claim_ids = [];
  ts = 0;
}

abbrev pub make_remove_liquidity_amount_reply : ℕ → ℕ → ℕ → ℕ → ℕ → RemoveLiquidityAmountsReply
make_remove_liquidity_amount_reply amount_0 lp_fee_0 amount_1 lp_fee_1 remove_lp_token_amount =
    record {
      symbol = [];
      chain_0 = [];
      address_0 = [];
      symbol_0 = [];
      amount_0 = amount_0;
      lp_fee_0 = lp_fee_0;
      chain_1 = [];
      address_1 = [];
      symbol_1 = [];
      amount_1 = amount_1;
      lp_fee_1 = lp_fee_1;
      remove_lp_token_amount = remove_lp_token_amount;
    }
