-- ===== src/Agent/Mock/Script.antt =====
-- Which calls the mock accepts.
use sns_kongswap_adaptor.Base.{◌≡◌, refl, ap, ◌∙◌, true, Option, none, some, List, [], ◌∷◌, ◌++◌}
use mathlib.Core.List.{append_assoc, append-nil}
use sns_kongswap_adaptor.Base.Text.{text_eq_refl}
use sns_kongswap_adaptor.Base.Result.{ok}
use sns_kongswap_adaptor.Sns.{Principal}
use sns_kongswap_adaptor.Agent.{Request, Response, commit_state}
use sns_kongswap_adaptor.Agent.Interface.{Bytes}
use sns_kongswap_adaptor.Agent.Requests.{payload}
use sns_kongswap_adaptor.Agent.Witness.{Printer}
use sns_kongswap_adaptor.Agent.Mock.{
  CallSpec, MockAgent, Codec, new, finished_calls, add_call, new_call, call,
}

-- A call with the response to it.
pub record Exchange : Type 0 where
  pub canister_id : Principal
  pub request : Request
  pub response : Response request

abbrev and_then : {A B : Type 0} → Option A → (A → Option B) → Option B
and_then none f = none
and_then (some a) f = f a

module _ (printer : Printer) (codec : Codec) where
  -- `MockAgent::new(..).add_call(..).add_call(..)`.
  unfoldable pub expect_all : List Exchange → MockAgent → Option MockAgent
  expect_all [] agent = some agent
  expect_all (x ∷ xs) agent =
      and_then (add_call printer codec x.canister_id x.request x.response agent) (expect_all xs)

  -- Every call is answered as the script says, and the state is committed after it.
  pub data Plays : List Exchange → MockAgent → MockAgent → Type 0 where
    over : {agent : MockAgent} → Plays [] agent agent
    exchange :
        {x : Exchange} {xs : List Exchange} {agent called committed last : MockAgent}
        → call printer codec x.canister_id x.request agent ≡ some (x.response, called)
        → call printer codec agent.self_canister_id commit_state called ≡ some (tt, committed)
        → Plays xs committed last
        → Plays (x ∷ xs) agent last

  -- What candid documents: a request and a response can be encoded, and the response decoded again.
  pub record IsSound (r : Request) (response : Response r) : Type 0 where
    pub raw_request : Bytes
    pub raw_response : Bytes
    pub encodes : payload printer codec.candid r ≡ ok raw_request
    pub responds : codec.encode_response r response ≡ some raw_response
    pub decodes : codec.decode_response r raw_response ≡ some response

  abbrev pub AreSound : List Exchange → Type 0
  AreSound [] = Unit
  AreSound (x ∷ xs) = IsSound x.request x.response × AreSound xs

  module _ {r : Request} {response : Response r} (p : Principal) (s : IsSound r response) where
    spec : CallSpec
    spec = record { raw_request = s.raw_request; raw_response = s.raw_response; canister_id = p }

    new_call_lem : new_call printer codec p r response ≡ some spec
    unfolding new_call spec
    new_call_lem = rw (s.encodes, s.responds) refl

    call_lem :
        (rest : List CallSpec) (self_id : Principal)
        → call printer codec p r
            (record { expected_calls = spec ∷ rest; self_canister_id = self_id })
          ≡ some (response, record { expected_calls = rest; self_canister_id = self_id })
    unfolding call spec
    call_lem rest self_id =
        rw (s.encodes, text_eq_refl s.raw_request, text_eq_refl p.text, s.decodes) refl

  module _ (commits : IsSound commit_state tt) where
    add_call_lem :
        {r : Request} {response : Response r} (p : Principal) (s : IsSound r response)
        (agent : MockAgent)
        → add_call printer codec p r response agent
          ≡ some (record agent {
            expected_calls =
                (agent.expected_calls ++ spec p s ∷ []) ++ spec agent.self_canister_id commits ∷ [];
          })
    unfolding add_call
    add_call_lem p s agent = rw (new_call_lem p s, new_call_lem agent.self_canister_id commits) refl

    -- What the calls of a script leave in the queue.
    specs : Principal → (xs : List Exchange) → AreSound xs → List CallSpec
    specs self_id [] s = []
    specs self_id (x ∷ xs) s =
        spec x.canister_id s.0 ∷ (spec self_id commits ∷ specs self_id xs s.1)

    expect_all_lem :
        (xs : List Exchange) (s : AreSound xs) (agent : MockAgent)
        → expect_all xs agent
          ≡ some (record agent {
            expected_calls = agent.expected_calls ++ specs agent.self_canister_id xs s;
          })
    unfolding expect_all specs add_call
    expect_all_lem [] s agent = rw append-nil refl
    expect_all_lem (x ∷ xs) s agent =
        ap (λ a. and_then a (expect_all xs)) (add_call_lem x.canister_id s.0 agent)
        ∙ expect_all_lem xs s.1 _
        ∙ rw (append_assoc, append_assoc) refl

    specs-Plays :
        (self_id : Principal) (xs : List Exchange) (s : AreSound xs)
        → Plays xs
            (record { expected_calls = specs self_id xs s; self_canister_id = self_id })
            (new self_id)
    unfolding specs new
    specs-Plays self_id [] s = over
    specs-Plays self_id (x ∷ xs) s =
        exchange (call_lem x.canister_id s.0 _ self_id) (call_lem self_id commits _ self_id)
          (specs-Plays self_id xs s.1)

  -- Where the requests and the responses of a script, and those of the commit, can be encoded, and the
  -- responses decoded again: a mock that is told to expect the calls of the script, however long, takes
  -- them all in their order, each followed by the call that commits the state, gives the responses of
  -- the script, and has then finished its calls.
  pub expect_all-Plays :
      (self_id : Principal) (script : List Exchange)
      → IsSound commit_state tt
      → AreSound script
      → (agent last : MockAgent) × (expect_all script (new self_id) ≡ some agent)
        × Plays script agent last
        × (finished_calls last ≡ true)
  unfolding new finished_calls
  expect_all-Plays self_id script commits sound = (
    _,
    new self_id,
    expect_all_lem commits script sound (new self_id),
    specs-Plays commits self_id script sound,
    refl,
  )
