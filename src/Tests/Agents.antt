-- ===== src/Tests/Agents.antt =====
-- A mock that expects one transfer, with a codec for it.
use sns_kongswap_adaptor.Base.{ℕ, ◌≡◌, refl, true, Option, none, some, List, [], ◌∷◌, ◌++◌}
use sns_kongswap_adaptor.Base.Text.{Text, str, text_eq}
use sns_kongswap_adaptor.Base.Result.{Result, ok, err}
use sns_kongswap_adaptor.Agent.{Request, Response, commit_state, balance_of, claim}
use sns_kongswap_adaptor.Agent.Interface.{Bytes, Argument, nat64}
use sns_kongswap_adaptor.Agent.Requests.{payload}
use sns_kongswap_adaptor.Agent.Mock.{CallSpec, MockAgent, Codec, new, finished_calls, call}
use sns_kongswap_adaptor.Agent.Mock.Script.{
  Exchange, expect_all, Plays, over, exchange, IsSound, expect_all-Plays,
}
use sns_kongswap_adaptor.Agent.Mock.Accepted.{IsSpecified, Plays-IsSpecified}
use sns_kongswap_adaptor.Tests.Fixtures.{env, manager, anonymous}

-- The codec knows claims and the commit.
abbrev encode_argument : Argument → Result Bytes Text
encode_argument (nat64 n) = ok (n ∷ [])
encode_argument _ = err (str "unsupported")

abbrev encode_response : (r : Request) → Response r → Option Bytes
encode_response (balance_of account) n = some (n ∷ [])
encode_response commit_state u = some []
encode_response (claim r) (err e) = some e
encode_response _ response = none

abbrev decode_response : (r : Request) → Bytes → Option (Response r)
decode_response (balance_of account) (n ∷ []) = some n
decode_response commit_state [] = some tt
decode_response (claim r) bytes = some (err bytes)
decode_response _ bytes = none

abbrev codec : Codec
codec = record {
  candid = record { encode = encode_argument; encoded_unit = 0 ∷ [] };
  encode_response = encode_response;
  decode_response = decode_response;
}

-- Two claims that the DEX refuses.
abbrev refused : ℕ → Exchange
refused n = record {
  canister_id = anonymous;
  request = claim (record { claim_id = n });
  response = err (str "refused");
}

abbrev script : List Exchange
script = refused 7 ∷ refused 8 ∷ []

refused_sound : (n : ℕ) → IsSound env.printer codec (refused n).request (refused n).response
unfolding payload
refused_sound n = record {
  raw_request = n ∷ [];
  raw_response = str "refused";
  encodes = refl;
  responds = refl;
  decodes = refl;
}

commits : IsSound env.printer codec commit_state tt
unfolding payload
commits = record {
  raw_request = 0 ∷ [];
  raw_response = [];
  encodes = refl;
  responds = refl;
  decodes = refl;
}

expect_all-Plays_example :
    (agent last : MockAgent) × (expect_all env.printer codec script (new manager) ≡ some agent)
    × Plays env.printer codec script agent last
    × (finished_calls last ≡ true)
expect_all-Plays_example =
    expect_all-Plays env.printer codec manager script commits
      (refused_sound 7, (refused_sound 8, tt))

abbrev expected : ℕ → CallSpec
expected n = record { raw_request = n ∷ []; raw_response = str "refused"; canister_id = anonymous }

abbrev commit : CallSpec
commit = record { raw_request = 0 ∷ []; raw_response = []; canister_id = manager }

-- Two claims are expected in front of a third one.
abbrev left : MockAgent
left = record { expected_calls = expected 9 ∷ []; self_canister_id = manager }

abbrev agent : MockAgent
agent = record left {
  expected_calls = expected 7 ∷ commit ∷ expected 8 ∷ commit ∷ left.expected_calls;
}

plays : Plays env.printer codec script agent left
unfolding call payload text_eq str
plays = exchange refl refl (exchange refl refl over)

Plays-IsSpecified_example :
    (specified : List CallSpec) × (agent.expected_calls ≡ specified ++ expected 9 ∷ [])
    × IsSpecified env.printer codec manager script specified
Plays-IsSpecified_example = Plays-IsSpecified env.printer codec script agent left plays
