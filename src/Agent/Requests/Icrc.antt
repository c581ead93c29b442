-- ===== src/Agent/Requests/Icrc.antt =====
-- agent/icrc_requests.rs: the calls of the ledgers.
use sns_kongswap_adaptor.Base.{ℕ, ◌++◌, List}
use sns_kongswap_adaptor.Base.Text.{Text, str}
use sns_kongswap_adaptor.Base.Result.{Result, ok, ◌>>=◌}
use sns_kongswap_adaptor.Sns.{Account, non_ledger}
use sns_kongswap_adaptor.Agent.{
  balance_of, transfer, approve, transfer_from, metadata, MetadataValue, TransferArg, ApproveArgs,
  TransferFromArgs,
}
use sns_kongswap_adaptor.Agent.Interface.{Implementation, Witnessed, record_of}
use sns_kongswap_adaptor.Agent.Witness.{Printer, block_witness, serialized}

abbrev pub balance_of_request : Printer → Account → Implementation ℕ (Witnessed ℕ)
balance_of_request printer account = record {
  method = str "icrc1_balance_of";
  payload = λ candid. candid.encode (record_of (balance_of account));
  transaction_witness = λ canister_id response. ok (
    non_ledger (
        str "Balance of account "
        ++ (printer.account account ++ (str ": " ++ printer.nat response))),
    response,
  );
}

-- The error of a ledger is turned into what it prints.
abbrev pub transfer_request : TransferArg → Implementation (Result ℕ Text) (Witnessed ℕ)
transfer_request r = record {
  method = str "icrc1_transfer";
  payload = λ candid. candid.encode (record_of (transfer r));
  transaction_witness = λ canister_id response.
      response >>= λ block_index. ok (block_witness canister_id r.amount block_index, block_index);
}

abbrev pub approve_request : ApproveArgs → Implementation (Result ℕ Text) (Witnessed ℕ)
approve_request r = record {
  method = str "icrc2_approve";
  payload = λ candid. candid.encode (record_of (approve r));
  transaction_witness = λ canister_id response.
      response >>= λ block_index. ok (block_witness canister_id r.amount block_index, block_index);
}

abbrev pub metadata_request :
    Printer → Implementation (List (Text × MetadataValue)) (Witnessed (List (Text × MetadataValue)))
metadata_request printer = record {
  method = str "icrc1_metadata";
  payload = λ candid. ok candid.encoded_unit;
  transaction_witness =
      λ canister_id response. ok (non_ledger (serialized printer metadata response), response);
}

abbrev pub transfer_from_request : TransferFromArgs → Implementation (Result ℕ Text) (Witnessed ℕ)
transfer_from_request r = record {
  method = str "icrc2_transfer_from";
  payload = λ candid. candid.encode (record_of (transfer_from r));
  transaction_witness = λ canister_id response.
      response >>= λ block_index. ok (block_witness canister_id r.amount block_index, block_index);
}
