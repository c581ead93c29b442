-- ===== src/Agent/Mock.antt =====
-- agent/mock_agent.rs: an agent for tests, which answers the calls that it was told to expect, in
-- their order. A panic is `none`.
pub mod Script
pub mod Accepted
use sns_kongswap_adaptor.Base.{
  Bool, true, false, Option, none, some, List, [], ◌∷◌, ◌++◌, if◌then◌else◌,
}
use sns_kongswap_adaptor.Base.Text.{Text, text_eq}
use sns_kongswap_adaptor.Base.Result.{Result, ok, err}
use sns_kongswap_adaptor.Sns.{Principal, principal_eq}
use sns_kongswap_adaptor.Agent.{Request, Response, commit_state}
use sns_kongswap_adaptor.Agent.Interface.{Bytes, Candid}
use sns_kongswap_adaptor.Agent.Requests.{payload}
use sns_kongswap_adaptor.Agent.Witness.{Printer}

pub record CallSpec : Type 0 where
  pub raw_request : Bytes
  pub raw_response : Bytes
  pub canister_id : Principal

pub record MockAgent : Type 0 where
  pub expected_calls : List CallSpec
  pub self_canister_id : Principal

-- Candid's encoding and decoding of responses.
pub record Codec : Type 0 where
  pub candid : Candid
  pub encode_response : (r : Request) → Response r → Option Bytes
  pub decode_response : (r : Request) → Bytes → Option (Response r)

unfoldable pub new : Principal → MockAgent
new self_canister_id = record { expected_calls = []; self_canister_id = self_canister_id }

-- The queue is a list with its front first.
unfoldable pub finished_calls : MockAgent → Bool
finished_calls agent = elim agent.expected_calls [ [] ↦ true | call ∷ calls ↦ false ]

module _ (printer : Printer) (codec : Codec) where
  abbrev pub spec_of : Principal → Result Bytes Text → Option Bytes → Option CallSpec
  spec_of canister_id (ok raw_request) (some raw_response) =
      some (record {
        raw_request = raw_request;
        raw_response = raw_response;
        canister_id = canister_id;
      })
  spec_of canister_id _ _ = none

  -- `CallSpec::new`.
  unfoldable pub new_call : Principal → (r : Request) → Response r → Option CallSpec
  new_call canister_id r response =
      spec_of canister_id (payload printer codec.candid r) (codec.encode_response r response)

  abbrev pub expect_both : MockAgent → Option CallSpec → Option CallSpec → Option MockAgent
  expect_both agent (some call) (some commit) =
      some (record agent { expected_calls = (agent.expected_calls ++ call ∷ []) ++ commit ∷ [] })
  expect_both agent _ _ = none

  -- Each call is to be followed by the call that commits the state.
  unfoldable pub add_call : Principal → (r : Request) → Response r → MockAgent → Option MockAgent
  add_call canister_id r response agent =
      expect_both agent (new_call canister_id r response)
        (new_call agent.self_canister_id commit_state tt)

  abbrev pub replied : {A : Type 0} → MockAgent → Option A → Option (A × MockAgent)
  replied agent (some reply) = some (reply, agent)
  replied agent none = none

  abbrev pub matched :
      (r : Request)
      → Principal
      → Bytes
      → Principal
      → List CallSpec
      → Option (Response r × MockAgent)
  matched r canister_id raw_request self_id [] = none
  matched r canister_id raw_request self_id (expected ∷ rest) =
      if text_eq raw_request expected.raw_request
      then if principal_eq canister_id expected.canister_id
        then replied (record { expected_calls = rest; self_canister_id = self_id })
            (codec.decode_response r expected.raw_response)
        else none
      else none

  abbrev pub requested :
      (r : Request) → Principal → MockAgent → Result Bytes Text → Option (Response r × MockAgent)
  requested r canister_id agent (ok raw_request) =
      matched r canister_id raw_request agent.self_canister_id agent.expected_calls
  requested r canister_id agent (err e) = none

  -- Where it does not panic, the call succeeds.
  unfoldable pub call : Principal → (r : Request) → MockAgent → Option (Response r × MockAgent)
  call canister_id r agent = requested r canister_id agent (payload printer codec.candid r)
