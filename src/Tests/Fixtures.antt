-- ===== src/Tests/Fixtures.antt =====
-- The assets and the accounts of test_helpers/mod.rs, balances in the middle of their life, and a
-- world whose ledgers answer balance queries and transfers, and whose other calls all fail.
use sns_kongswap_adaptor.Base.{ℕ, suc, true, false, none, [], ◌∷◌}
use sns_kongswap_adaptor.Base.Text.{Text, str, decimal}
use sns_kongswap_adaptor.Base.Result.{Result, ok, err}
use sns_kongswap_adaptor.Sns.{
  Principal, Account, Allowance, Error, pending, precondition, postcondition, backend,
  temporarily_unavailable, call, Operation, TreasuryManagerOperation,
}
use sns_kongswap_adaptor.Validation.Asset.{ValidatedAsset, Display}
use sns_kongswap_adaptor.Validation.Allowance.{ValidatedAllowance}
use sns_kongswap_adaptor.Balances.{ValidatedBalance, ValidatedBalanceBook, ValidatedBalances}
use sns_kongswap_adaptor.AuditTrail.{StableTransaction}
use sns_kongswap_adaptor.Agent.{Request, Response, balance_of, transfer, transfer_from}
pub use sns_kongswap_adaptor.TestHelpers.{sns_ledger, icp_ledger}
use sns_kongswap_adaptor.TestHelpers.{asset_0, asset_1}
use sns_kongswap_adaptor.Machine.{Env, Machine, Canister, initialized}

abbrev pub manager : Principal
manager = record { text = str "jexlm-gaaaa-aaaar-qalmq-cai" }

abbrev pub anonymous : Principal
anonymous = record { text = str "2vxsx-fae" }

abbrev pub account_of : Principal → Account
account_of p = record { owner = p; subaccount = none }

abbrev pub dao : ValidatedAsset
dao = record {
  symbol = record { repr = 68 ∷ 65 ∷ 79 ∷ 0 ∷ 0 ∷ 0 ∷ 0 ∷ 0 ∷ 0 ∷ 0 ∷ [] };
  ledger_canister_id = sns_ledger;
  ledger_fee_decimals = 10_500;
}

abbrev pub icp : ValidatedAsset
icp = record {
  symbol = record { repr = 73 ∷ 67 ∷ 80 ∷ 0 ∷ 0 ∷ 0 ∷ 0 ∷ 0 ∷ 0 ∷ 0 ∷ [] };
  ledger_canister_id = icp_ledger;
  ledger_fee_decimals = 9_500;
}

abbrev pub balance : ℕ → ValidatedBalance
balance n = record { amount_decimals = n; account = account_of manager; name = str "DAO Treasury" }

abbrev pub some_book : ValidatedBalanceBook
some_book = record {
  treasury_owner = balance 1_000_000;
  treasury_manager = balance 5_000_000;
  external = 3_000_000;
  fee_collector = 31_500;
  spendings = 0;
  earnings = 0;
  suspense = 7;
}

abbrev pub some_balances : ValidatedBalances
some_balances = record {
  timestamp_ns = 10;
  asset_0 = dao;
  asset_1 = icp;
  asset_0_balance = some_book;
  asset_1_balance = some_book;
}

abbrev pub operation : Operation → TreasuryManagerOperation
operation op = record { operation = op; step = record { index = 0; is_final = false } }

abbrev pub entry : Operation → ℕ → StableTransaction
entry op time = record {
  timestamp_ns = time;
  canister_id = sns_ledger;
  result = ok pending;
  human_readable = str "Calling.";
  operation = operation op;
}

abbrev pub error : Text → Error
error message = record { code = 0; message = message; kind = temporarily_unavailable }

abbrev pub display : Display
display = record { nat = decimal; nat_debug = decimal; u64_digit_count = λ n. str "2" }

-- The ledgers answer balance queries, and accept transfers.
abbrev pub answer : (r : Request) → Result (Response r) Text
answer (balance_of account) = ok 1_000_000
answer (transfer arg) = ok (ok 1)
answer (transfer_from arg) = ok (ok 2)
answer _ = err (str "unreachable")

abbrev pub env : Env ℕ
env = record {
  id = manager;
  kong_backend_canister_id = anonymous;
  icp_ledger_canister_id = icp_ledger;
  time_ns = λ w. w;
  call = λ p r w. (answer r, suc w);
  grows = λ w. true;
  fits = λ t. true;
  overflow_checks = false;
  others = λ w c. c;
  errors = record {
    new_precondition = λ m. record { code = 0; message = m; kind = precondition };
    new_postcondition = λ m. record { code = 1; message = m; kind = postcondition };
    new_backend = λ m. record { code = 3; message = m; kind = backend };
    new_temporarily_unavailable = error;
    new_call = λ method p e. record { code = 2; message = e; kind = call method p };
  };
  printer = record { json = λ r reply. none; account = λ a. a.owner.text; nat = decimal };
  display = display;
  floats = record {
    is_nan = λ x. false;
    of_u64 = λ n. n;
    mul = λ x y. x;
    clamp = λ x lo hi. x;
    round = λ x. x;
    to_u64 = λ x. x;
  };
}

abbrev pub canister : Canister
canister = record {
  balances = initialized some_balances;
  audit_trail = entry Operation.balances 10 ∷ [];
}

abbrev pub machine : Machine ℕ
machine = record {
  canister = canister;
  committed = canister;
  context = record { operation = Operation.balances; index = none };
  world = 1000;
}

abbrev pub allowance_0 : Allowance
allowance_0 = record {
  asset = asset_0;
  amount_decimals = 50_000_000_000;
  owner_account = account_of manager;
}

abbrev pub allowance_1 : Allowance
allowance_1 = record {
  asset = asset_1;
  amount_decimals = 10_000_000_000;
  owner_account = account_of manager;
}

abbrev pub validated : ValidatedAsset → ℕ → ValidatedAllowance
validated asset amount = record {
  asset = asset;
  amount_decimals = amount;
  owner_account = account_of manager;
}
