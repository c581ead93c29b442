-- ===== src/Agent/Witness.antt =====
-- audit.rs and what the `transaction_witness` methods share: what the audit trail keeps of a
-- reply.
pub mod Clamp
use sns_kongswap_adaptor.Base.{
  ℕ, Bool, ◌-◌, ◌/◌, Option, none, some, List, [], ◌∷◌, ◌++◌, map, ltb, leb, if◌then◌else◌, length,
  take, drop,
}
use sns_kongswap_adaptor.Base.Text.{Text, str, text_eq}
use sns_kongswap_adaptor.Base.Result.{Result, ok, err, ◌>>=◌}
use sns_kongswap_adaptor.Sns.{
  Principal, Account, Transfer, Transaction, TransactionWitness, ledger, non_ledger,
}
use sns_kongswap_adaptor.Agent.{Request, Reply, TransferIdReply}

-- 1,024.
abbrev pub max_reply_size_bytes : ℕ
max_reply_size_bytes = 1024

-- On the list of characters.
unfoldable pub clamp_string_len : List ℕ → ℕ → List ℕ
clamp_string_len chars max_len =
    if leb max_len 3
    then take max_len chars
    else if leb (length chars) max_len
    then chars
    else let content_len = max_len - 3 in
      let tail_len = content_len / 2 in
      let head_len = content_len - tail_len in
      let tail_begin = length chars - tail_len in
      take head_len chars ++ (str "..." ++ drop tail_begin chars)

abbrev to_ascii : ℕ → ℕ
to_ascii c = if ltb c 128 then c else b'?'

unfoldable pub utf8_to_ascii_lossy : List ℕ → Text
utf8_to_ascii_lossy s = map to_ascii s

-- `serde_json::to_string` gives the characters of a reply's JSON text, or fails.
unfoldable pub serialize_reply : Option (List ℕ) → Text
unfolding utf8_to_ascii_lossy clamp_string_len
serialize_reply none = str "<Failed serializing reply>"
serialize_reply (some json) = clamp_string_len (utf8_to_ascii_lossy json) max_reply_size_bytes

-- The two forms of `serde_json` for the transactions, whose errors are known by their debug form, are
-- parameters.
unfoldable pub serialize_audit_trail :
    (List Transaction → Result Text Text)
    → (List Transaction → Result Text Text)
    → List Transaction
    → Bool
    → Result Text Text
serialize_audit_trail to_string_pretty to_string transactions make_pretty =
    if make_pretty then to_string_pretty transactions else to_string transactions

-- `From<&TransferIdReply> for Transfer`.
unfoldable pub transfer_of : TransferIdReply → Transfer
transfer_of reply = record {
  ledger_canister_id = reply.transfer.canister_id;
  amount_decimals = reply.transfer.amount;
  block_index = reply.transfer.block_index;
  sender = none;
  receiver = none;
}

-- The replies that the program serialises, and what candid and serde print.
pub record Printer : Type 0 where
  pub json : (r : Request) → Reply r → Option (List ℕ)
  pub account : Account → Text
  pub nat : ℕ → Text

abbrev WitnessOf : Request → Type 0
WitnessOf r = Result (TransactionWitness × Reply r) Text

-- A ledger call is witnessed by its block index.
abbrev pub block_witness : Principal → ℕ → ℕ → TransactionWitness
block_witness canister_id amount block_index = ledger (
    record {
      ledger_canister_id = canister_id.text;
      amount_decimals = amount;
      block_index = block_index;
      sender = none;
      receiver = none;
    }
    ∷ [])

module _ (printer : Printer) where
  abbrev pub serialized : (r : Request) → Reply r → Text
  serialized r reply = serialize_reply (printer.json r reply)

  -- A DEX call whose reply is kept as text.
  abbrev pub noted : (r : Request) → Result (Reply r) Text → WitnessOf r
  noted r response = response >>= λ reply. ok (non_ledger (serialized r reply), reply)

  -- A DEX call that moves tokens: its status must be "Success", and its transfers are kept.
  abbrev pub settled : (r : Request) → Text → Text → List TransferIdReply → Reply r → WitnessOf r
  settled r failure status transfer_ids reply =
      if text_eq status (str "Success")
      then ok (ledger (map transfer_of transfer_ids), reply)
      else err (failure ++ serialized r reply)
