-- ===== src/Agent/Mock/Accepted.antt =====
-- That a mock answers nothing but what it was told to expect.
use mathlib.Core.Path.{sym, subst}
use sns_kongswap_adaptor.Base.{
  ◌≡◌, refl, ap, ◌∙◌, true, false, Bool-cases, ◌⊎◌, inl, inr, Option, none, some, List, [], ◌∷◌,
  ◌++◌,
}
use sns_kongswap_adaptor.Base.Text.{text_eq, text_eq_sound}
use sns_kongswap_adaptor.Base.Result.{ok, Result-cases}
use sns_kongswap_adaptor.Sns.{Principal, principal_eq}
use sns_kongswap_adaptor.Agent.{Request, Response, commit_state}
use sns_kongswap_adaptor.Agent.Interface.{Bytes}
use sns_kongswap_adaptor.Agent.Requests.{payload}
use sns_kongswap_adaptor.Agent.Witness.{Printer}
use sns_kongswap_adaptor.Agent.Mock.{CallSpec, MockAgent, Codec, call, matched, requested, replied}
use sns_kongswap_adaptor.Agent.Mock.Script.{Exchange, Plays, over, exchange}

module _ (printer : Printer) (codec : Codec) where
  -- The specifications of a script's calls, each with that of the commit after it, in their order.
  abbrev pub IsSpecified : Principal → List Exchange → List CallSpec → Type 0
  IsSpecified self_id [] [] = Unit
  IsSpecified self_id (x ∷ xs) (c ∷ (commit ∷ cs)) =
      (payload printer codec.candid x.request ≡ ok c.raw_request)
      × (principal_eq x.canister_id c.canister_id ≡ true)
      × (codec.decode_response x.request c.raw_response ≡ some x.response)
      × (payload printer codec.candid commit_state ≡ ok commit.raw_request)
      × (principal_eq self_id commit.canister_id ≡ true)
      × IsSpecified self_id xs cs
  IsSpecified self_id _ _ = ⊥

  -- What the front of the queue is when a call is answered.
  abbrev IsFront : (p : Principal) (r : Request) → Response r → MockAgent → MockAgent → Type 0
  IsFront p r response agent after =
      (c : CallSpec) × (agent.expected_calls ≡ c ∷ after.expected_calls)
      × (agent.self_canister_id ≡ after.self_canister_id)
      × (payload printer codec.candid r ≡ ok c.raw_request)
      × (principal_eq p c.canister_id ≡ true)
      × (codec.decode_response r c.raw_response ≡ some response)

  replied-eq-some :
      {A : Type 0} (agent after : MockAgent) (d : Option A) (x : A)
      → replied printer codec agent d ≡ some (x, after)
      → (d ≡ some x) × (agent ≡ after)
  replied-eq-some agent after (some y) x h = (cc, cc)
  replied-eq-some agent after none x h = cc

  matched-IsFront :
      (p : Principal) (r : Request) (response : Response r) (raw : Bytes) (agent after : MockAgent)
      → payload printer codec.candid r ≡ ok raw
      → matched printer codec r p raw agent.self_canister_id agent.expected_calls
        ≡ some (response, after)
      → IsFront p r response agent after
  matched-IsFront p r response raw agent after e h = by_queue agent.expected_calls refl h
    where
      by_queue :
          (calls : List CallSpec)
          → agent.expected_calls ≡ calls
          → matched printer codec r p raw agent.self_canister_id calls ≡ some (response, after)
          → IsFront p r response agent after
      by_queue [] q h = cc
      by_queue (c ∷ cs) q h =
          by_tests (Bool-cases (text_eq raw c.raw_request))
            (Bool-cases (principal_eq p c.canister_id))
        where
          start : Option (Response r × MockAgent)
          start = matched printer codec r p raw agent.self_canister_id (c ∷ cs)

          by_tests :
              (text_eq raw c.raw_request ≡ true) ⊎ (text_eq raw c.raw_request ≡ false)
              → (principal_eq p c.canister_id ≡ true) ⊎ (principal_eq p c.canister_id ≡ false)
              → IsFront p r response agent after
          by_tests (inl x) (inl y) =
              let rest : MockAgent = record {
                expected_calls = cs;
                self_canister_id = agent.self_canister_id;
              } in
              let reply = codec.decode_response r c.raw_response in
              let accepted : start ≡ replied printer codec rest reply = rw (x, y) refl in
              let (d, k) = replied-eq-some rest after reply response (sym accepted ∙ h) in
              (
                c,
                q ∙ ap (λ a. c ∷ a.expected_calls) k,
                ap (λ a. a.self_canister_id) k,
                e ∙ ap ok (text_eq_sound raw c.raw_request x),
                y,
                d,
              )
          by_tests (inl x) (inr y) = let refused : start ≡ none = rw (x, y) refl in cc
          by_tests (inr x) y = let refused : start ≡ none = rw x refl in cc

  call-IsFront :
      (p : Principal) (r : Request) (response : Response r) (agent after : MockAgent)
      → call printer codec p r agent ≡ some (response, after)
      → IsFront p r response agent after
  unfolding call
  call-IsFront p r response agent after h = elim (Result-cases (payload printer codec.candid r)) [
    | inl (raw, e) ↦
        let sent : requested printer codec r p agent (payload printer codec.candid r)
            ≡ requested printer codec r p agent (ok raw) =
          ap (requested printer codec r p agent) e in
        matched-IsFront p r response raw agent after e (sym sent ∙ h)
    | inr (x, e) ↦
        let refused : requested printer codec r p agent (payload printer codec.candid r) ≡ none =
          ap (requested printer codec r p agent) e in
        cc
  ]

  -- Where a mock takes the calls of a script as the script says, from any queue: the specifications at
  -- the front of the queue are those of the script's calls, in their order, each with the same
  -- canister, payload and response and followed by that of a commit; the queue that is left is the
  -- rest.
  pub Plays-IsSpecified :
      (script : List Exchange) (agent last : MockAgent)
      → Plays printer codec script agent last
      → (specified : List CallSpec) × (agent.expected_calls ≡ specified ++ last.expected_calls)
        × IsSpecified agent.self_canister_id script specified
  Plays-IsSpecified [] agent last over = ([], refl, tt)
  Plays-IsSpecified (x ∷ xs) agent last
        (exchange {called = called} {committed = committed} h k rest) =
      let (c, e, i, p, q, d) = call-IsFront x.canister_id x.request x.response agent called h in
      let (c', e', i', p', q', d') =
        call-IsFront agent.self_canister_id commit_state tt called committed k in
      let (cs, e'', s) = Plays-IsSpecified xs committed last rest in
      (
        c ∷ c' ∷ cs,
        e ∙ ap (λ l. c ∷ l) (e' ∙ ap (λ l. c' ∷ l) e''),
        (p, q, d, p', q', subst (λ p. IsSpecified p xs cs) (sym (i ∙ i')) s),
      )
