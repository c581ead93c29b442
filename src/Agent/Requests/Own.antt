-- ===== src/Agent/Requests/Own.antt =====
-- requests.rs: the calls of the canister itself, by its clients and by itself.
use sns_kongswap_adaptor.Base.{List}
use sns_kongswap_adaptor.Base.Text.{str}
use sns_kongswap_adaptor.Base.Result.{Result, ok, err}
use sns_kongswap_adaptor.Sns.{DepositRequest, WithdrawRequest, Error, Transaction}
use sns_kongswap_adaptor.Validation.View.{Balances}
use sns_kongswap_adaptor.Agent.Interface.{
  Implementation, Witnessed, deposit_request, withdraw_request, balances_request,
  audit_trail_request,
}

-- `unimplemented!()`.
pub data Unimplemented : Type 0 where
  unimplemented : Unimplemented

abbrev pub TreasuryManagerResult : Type 0
TreasuryManagerResult = Result Balances (List Error)

abbrev pub deposit_call : DepositRequest → Implementation TreasuryManagerResult Unimplemented
deposit_call r = record {
  method = str "deposit";
  payload = λ candid. candid.encode (deposit_request r);
  transaction_witness = λ canister_id response. unimplemented;
}

abbrev pub withdraw_call : WithdrawRequest → Implementation TreasuryManagerResult Unimplemented
withdraw_call r = record {
  method = str "withdraw";
  payload = λ candid. candid.encode (withdraw_request r);
  transaction_witness = λ canister_id response. unimplemented;
}

abbrev pub balances_call : Implementation TreasuryManagerResult Unimplemented
balances_call = record {
  method = str "balances";
  payload = λ candid. candid.encode balances_request;
  transaction_witness = λ canister_id response. unimplemented;
}

abbrev pub audit_trail_call : Implementation (List Transaction) Unimplemented
audit_trail_call = record {
  method = str "audit_trail";
  payload = λ candid. candid.encode audit_trail_request;
  transaction_witness = λ canister_id response. unimplemented;
}

-- The `unwrap` is of the encoding of `()`.
abbrev pub commit_state_request : Implementation (Unit {0}) (Witnessed (Unit {0}))
commit_state_request = record {
  method = str "commit_state";
  payload = λ candid. ok candid.encoded_unit;
  transaction_witness =
      λ canister_id response. err (str "CommitStateRequest does not have a transaction witness");
}
