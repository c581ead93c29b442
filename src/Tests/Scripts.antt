-- ===== src/Tests/Scripts.antt =====
-- The worlds and the scripts of calls of the repository's unit tests.
use sns_kongswap_adaptor.Base.{ℕ, zero, suc, true, false, none, List, [], ◌∷◌, ◌++◌, ◌-◌, ◌*◌}
use sns_kongswap_adaptor.Base.Text.{Text, str}
use sns_kongswap_adaptor.Base.Result.{Result}
use sns_kongswap_adaptor.Sns.{Principal, Operation, TreasuryManagerOperation}
use sns_kongswap_adaptor.Validation.Asset.{ValidatedAsset}
use sns_kongswap_adaptor.Validation.Allowance.{ValidatedAllowance}
use sns_kongswap_adaptor.Balances.{ValidatedBalances, ValidatedBalanceBook}
use sns_kongswap_adaptor.Agent.{
  Request, Response, balance_of, approve, transfer_from, add_token, add_pool, commit_state,
}
use sns_kongswap_adaptor.Machine.{Env, Machine, Canister, initialized}
use sns_kongswap_adaptor.Adaptor.Kong.{e8}
use sns_kongswap_adaptor.TestHelpers.{
  fee_sns, fee_icp, sns_ledger, icp_ledger, owner_account, make_approve_request,
  make_balance_request, make_add_token_request, make_add_pool_request, make_transfer_from_request,
  treasury_manager_canister_id,
}
use sns_kongswap_adaptor.Tests.Fixtures.{dao, icp, env, validated}

-- The calls that have been made, without those that commit.
abbrev pub Calls : Type 0
Calls = List (Principal × Request)

abbrev pub amount_0 : ℕ
amount_0 = 500 * e8

abbrev pub amount_1 : ℕ
amount_1 = 400 * e8

abbrev pub backend : Principal
backend = env.kong_backend_canister_id

abbrev pub recorded : Principal → Request → Calls → Calls
recorded p commit_state calls = calls
recorded p r calls = calls ++ (p, r) ∷ []

-- A world that answers in this way.
abbrev pub recording : (Calls → (r : Request) → Result (Response r) Text) → Env Calls
recording replies = record {
  id = treasury_manager_canister_id;
  kong_backend_canister_id = backend;
  icp_ledger_canister_id = icp_ledger;
  time_ns = λ w. 0;
  call = λ p r w. (replies w r, recorded p r w);
  grows = λ w. true;
  fits = λ t. true;
  overflow_checks = false;
  others = λ w c. c;
  errors = env.errors;
  printer = env.printer;
  display = env.display;
  floats = env.floats;
}

abbrev pub empty : ValidatedBalanceBook
empty = record {
  treasury_owner = record {
    amount_decimals = 0;
    account = owner_account;
    name = str "DAO Treasury";
  };
  treasury_manager = record {
    amount_decimals = 0;
    account = make_balance_request;
    name = str "KongSwapAdaptor(jexlm-gaaaa-aaaar-qalmq-cai)";
  };
  external = 0;
  fee_collector = 0;
  spendings = 0;
  earnings = 0;
  suspense = 0;
}

abbrev pub balances_of : ValidatedBalanceBook → ValidatedBalanceBook → ValidatedBalances
balances_of book_0 book_1 = record {
  timestamp_ns = 0;
  asset_0 = dao;
  asset_1 = icp;
  asset_0_balance = book_0;
  asset_1_balance = book_1;
}

abbrev pub start : Operation → ValidatedBalances → Machine Calls
start op balances =
    let c : Canister = record { balances = initialized balances; audit_trail = [] } in
    record {
      canister = c;
      committed = c;
      context = record { operation = op; index = none };
      world = [];
    }

abbrev pub step : Operation → ℕ → TreasuryManagerOperation
step op index = record { operation = op; step = record { index = index; is_final = false } }

abbrev pub owned : ValidatedAsset → ℕ → ValidatedAllowance
owned asset amount = record (validated asset amount) { owner_account = owner_account }

abbrev pub token_0 : Text
token_0 = str "IC." ++ sns_ledger.text

abbrev pub token_1 : Text
token_1 = str "IC." ++ icp_ledger.text

-- What the ledgers are asked for, one after the other.
abbrev pub asked_balances : Calls
asked_balances =
    (sns_ledger, balance_of make_balance_request)
    ∷ (icp_ledger, balance_of make_balance_request)
    ∷ []

-- The calls of a deposit up to the new pool.
abbrev pub deposit_calls : Calls
deposit_calls =
    (
      sns_ledger,
      transfer_from (
          make_transfer_from_request owner_account make_balance_request fee_sns (amount_0 - fee_sns)
            (step Operation.deposit 0)),
    )
    ∷ (
      icp_ledger,
      transfer_from (
          make_transfer_from_request owner_account make_balance_request fee_icp (amount_1 - fee_icp)
            (step Operation.deposit 1)),
    )
    ∷ (sns_ledger, approve (make_approve_request backend (amount_0 - fee_sns) fee_sns))
    ∷ (icp_ledger, approve (make_approve_request backend (amount_1 - fee_icp) fee_icp))
    ∷ (sns_ledger, balance_of make_balance_request)
    ∷ (icp_ledger, balance_of make_balance_request)
    ∷ (backend, add_token (make_add_token_request token_0))
    ∷ (backend, add_token (make_add_token_request token_1))
    ∷ (
      backend,
      add_pool
          (make_add_pool_request token_0 (amount_0 - 3 * fee_sns) token_1 (amount_1 - 3 * fee_icp)),
    )
    ∷ []

abbrev pub nth : ℕ → List ℕ → ℕ
nth n [] = 0
nth zero (x ∷ xs) = x
nth (suc n) (x ∷ xs) = nth n xs
