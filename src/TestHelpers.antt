-- ===== src/TestHelpers.antt =====
-- test_helpers/mod.rs: the assets of the repository's tests, and the builders of the requests and the
-- replies that their scripts of expected calls consist of. `..Default::default()` gives the fields that
-- are not named, as empty texts and lists and zeros.
pub mod Liquidity
pub mod Books
use sns_kongswap_adaptor.Base.{ℕ, true, false, none, some, List, [], ◌++◌}
use sns_kongswap_adaptor.Base.Text.{Text, str}
use sns_kongswap_adaptor.Arithmetics.{wrapping_sub}
use sns_kongswap_adaptor.Sns.{Principal, Account, Asset, token, TreasuryManagerOperation}
use sns_kongswap_adaptor.Adaptor.Deposit.{one_hour}
use sns_kongswap_adaptor.Agent.{
  TransferArg, ApproveArgs, TransferFromArgs, AddLiquidityAmountsArgs, AddLiquidityArgs, TokenArgs,
  AddPoolArgs, RemoveLiquidityArgs, PrincipalArgs, AddLiquidityAmountsReply, AddLiquidityReply,
  TokenReply, AddPoolReply, RemoveLiquidityAmountsReply, RemoveLiquidityReply, UserBalanceLpReply,
  ClaimsReply, ClaimReply,
}

abbrev pub fee_sns : ℕ
fee_sns = 10_500

abbrev pub fee_icp : ℕ
fee_icp = 9_500

abbrev pub success_status : Text
success_status = str "Success"

abbrev pub failure_status : Text
failure_status = str "Failed"

abbrev pub treasury_manager_canister_id : Principal
treasury_manager_canister_id = record { text = str "jexlm-gaaaa-aaaar-qalmq-cai" }

abbrev pub sns_ledger : Principal
sns_ledger = record { text = str "rdmx6-jaaaa-aaaaa-aaadq-cai" }

abbrev pub icp_ledger : Principal
icp_ledger = record { text = str "ryjl3-tyaaa-aaaaa-aaaba-cai" }

abbrev pub owner_account : Account
owner_account = record { owner = record { text = str "2vxsx-fae" }; subaccount = none }

abbrev pub asset_0 : Asset
asset_0 = token (str "DAO") sns_ledger fee_sns

abbrev pub asset_1 : Asset
asset_1 = token (str "ICP") icp_ledger fee_icp

-- `format!("{}_{}", symbol_0, symbol_1)`.
abbrev pool_symbol : Text → Text → Text
pool_symbol symbol_0 symbol_1 = symbol_0 ++ (str "_" ++ symbol_1)

-- The canister id of KongSwapBackend is the build's.
abbrev pub make_approve_request : Principal → ℕ → ℕ → ApproveArgs
make_approve_request kong_backend_canister_id amount fee = record {
  from_subaccount = none;
  spender = record { owner = kong_backend_canister_id; subaccount = none };
  amount = wrapping_sub amount fee;
  expected_allowance = some 0;
  expires_at = some one_hour;
  fee = some fee;
  memo = none;
  created_at_time = none;
}

abbrev pub make_balance_request : Account
make_balance_request = record { owner = treasury_manager_canister_id; subaccount = none }

abbrev pub make_add_token_request : Text → TokenArgs
make_add_token_request id = record { token = id }

abbrev pub make_add_token_reply : ℕ → Text → Principal → Text → Text → ℕ → TokenReply
make_add_token_reply token_id chain canister_id name symbol fee = record {
  token_id = token_id;
  chain = chain;
  canister_id = canister_id.text;
  name = name;
  symbol = symbol;
  decimals = 8;
  fee = fee;
  icrc1 = true;
  icrc2 = true;
  icrc3 = true;
  is_removed = false;
}

abbrev pub make_add_pool_request : Text → ℕ → Text → ℕ → AddPoolArgs
make_add_pool_request token_0 amount_0 token_1 amount_1 = record {
  token_0 = token_0;
  amount_0 = amount_0;
  tx_id_0 = none;
  token_1 = token_1;
  amount_1 = amount_1;
  tx_id_1 = none;
  lp_fee_bps = some 30;
}

abbrev pub make_add_pool_reply : Text → Text → AddPoolReply
make_add_pool_reply token_0 token_1 = record {
  tx_id = 0;
  pool_id = 0;
  request_id = 0;
  status = success_status;
  name = [];
  symbol = [];
  chain_0 = [];
  address_0 = [];
  symbol_0 = token_0;
  amount_0 = 0;
  balance_0 = 0;
  chain_1 = [];
  address_1 = [];
  symbol_1 = token_1;
  amount_1 = 0;
  balance_1 = 0;
  lp_fee_bps = 0;
  lp_token_symbol = pool_symbol token_0 token_1;
  add_lp_token_amount = 0;
  transfer_ids = [];
  claim_ids = [];
  is_removed = false;
  ts = 0;
}

abbrev pub make_transfer_request : Account → ℕ → ℕ → TreasuryManagerOperation → TransferArg
make_transfer_request owner fee amount operation = record {
  from_subaccount = none;
  to = owner;
  fee = some fee;
  created_at_time = some 0;
  memo = some operation;
  amount = wrapping_sub amount fee;
}

abbrev pub make_lp_balance_request : PrincipalArgs
make_lp_balance_request = record { principal_id = treasury_manager_canister_id.text }

-- The balance is the bit pattern of a 64-bit float.
abbrev pub make_lp_balance_reply : Text → Text → ℕ → UserBalanceLpReply
make_lp_balance_reply token_0 token_1 balance = record {
  symbol = pool_symbol token_0 token_1;
  name = [];
  lp_token_id = 0;
  balance = balance;
  usd_balance = 0;
  chain_0 = [];
  symbol_0 = [];
  address_0 = [];
  amount_0 = 0;
  usd_amount_0 = 0;
  chain_1 = [];
  symbol_1 = [];
  address_1 = [];
  amount_1 = 0;
  usd_amount_1 = 0;
  ts = 0;
}

abbrev pub make_claims_reply : Text → Text → ClaimsReply
make_claims_reply symbol_0 symbol_1 = record {
  claim_id = 0;
  status = failure_status;
  chain = str "IC";
  symbol = pool_symbol symbol_0 symbol_1;
  canister_id = none;
  amount = 0;
  fee = 0;
  to_address = [];
  desc = [];
  ts = 0;
}

abbrev pub make_claim_reply : Text → Text → Text → ℕ → ClaimReply
make_claim_reply symbol_0 symbol_1 ledger_id amount = record {
  claim_id = 0;
  status = success_status;
  chain = str "IC";
  symbol = pool_symbol symbol_0 symbol_1;
  canister_id = some ledger_id;
  amount = amount;
  fee = 0;
  to_address = [];
  desc = [];
  transfer_ids = [];
  ts = 0;
}

-- Also `make_remove_liquidity_amount_request`, whose arguments have the same fields.
abbrev pub make_remove_liquidity_request : Text → Text → ℕ → RemoveLiquidityArgs
make_remove_liquidity_request token_0 token_1 remove_lp_token_amount = record {
  token_0 = token_0;
  token_1 = token_1;
  remove_lp_token_amount = remove_lp_token_amount;
}

abbrev pub make_remove_liquidity_reply :
    Text → Text → ℕ → ℕ → ℕ → ℕ → ℕ → List ℕ → RemoveLiquidityReply
make_remove_liquidity_reply token_0 token_1 amount_0 amount_1 lp_fee_0 lp_fee_1
      remove_lp_token_amount claim_ids =
    record {
      tx_id = 0;
      request_id = 0;
      status = success_status;
      symbol = pool_symbol token_0 token_1;
      chain_0 = [];
      address_0 = [];
      symbol_0 = token_0;
      amount_0 = amount_0;
      lp_fee_0 = lp_fee_0;
      chain_1 = [];
      address_1 = [];
      symbol_1 = token_1;
      amount_1 = amount_1;
      lp_fee_1 = lp_fee_1;
      remove_lp_token_amount = remove_lp_token_amount;
      transfer_ids = [];
      claim_ids = claim_ids;
      ts = 0;
    }

abbrev pub make_transfer_from_request :
    Account → Account → ℕ → ℕ → TreasuryManagerOperation → TransferFromArgs
make_transfer_from_request from to fee amount operation = record {
  spender_subaccount = none;
  from = from;
  to = to;
  amount = amount;
  fee = some fee;
  memo = some operation;
  created_at_time = none;
}
