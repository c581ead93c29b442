-- ===== src/Agent/Cdk.antt =====
-- agent/ic_cdk_agent.rs: a call by way of the platform. What `ic_cdk` and candid do is a parameter.
use sns_kongswap_adaptor.Base.{ℕ, ◌*◌, ◌≡◌, ◌↔◌, ◌++◌, refl}
use sns_kongswap_adaptor.Base.Text.{Text, str}
use sns_kongswap_adaptor.Base.Result.{Result, ok, err}
use sns_kongswap_adaptor.Sns.{Principal}
use sns_kongswap_adaptor.Agent.{Request, Response}
use sns_kongswap_adaptor.Agent.Interface.{Bytes, Candid}
use sns_kongswap_adaptor.Agent.Requests.{method, payload}
use sns_kongswap_adaptor.Agent.Witness.{Printer}

-- `EXTERNAL_CALL_TIMEOUT_SECONDS`.
abbrev pub external_call_timeout_seconds : ℕ
external_call_timeout_seconds = 15 * 60

pub data CdkAgentError : Type 0 where
  call_failed candid_encode candid_decode : Text → CdkAgentError

-- What `thiserror` derives from the attributes.
unfoldable pub display : CdkAgentError → Text
display (call_failed e) = e
display (candid_encode e) = str "canister request could not be encoded: " ++ e
display (candid_decode e) = e

-- `Call::bounded_wait` with the canister, the method, the raw arguments and the timeout; and the
-- decoding of the bytes of a response. Errors are known by what they print.
pub record Platform (W : Type 0) : Type 0 where
  pub bounded_wait : Principal → Text → Bytes → ℕ → W → Result Bytes Text × W
  pub decode : (r : Request) → Bytes → Result (Response r) Text

module _ {W : Type 0} (platform : Platform W) (candid : Candid) (printer : Printer) where
  abbrev pub Answer : Request → Type 0
  Answer r = Result (Response r) CdkAgentError × W

  abbrev pub decoded : (r : Request) → Result (Response r) Text → W → Answer r
  decoded r (ok response) w = (ok response, w)
  decoded r (err e) w = (err (candid_decode e), w)

  abbrev pub answered : (r : Request) → Result Bytes Text × W → Answer r
  answered r (ok bytes, w) = decoded r (platform.decode r bytes) w
  answered r (err e, w) = (err (call_failed e), w)

  abbrev pub sent : Principal → (r : Request) → Result Bytes Text → W → Answer r
  sent canister_id r (err e) w = (err (candid_encode e), w)
  sent canister_id r (ok raw_args) w = answered r (
      platform.bounded_wait canister_id (method printer r) raw_args external_call_timeout_seconds w)

  unfoldable pub call : Principal → (r : Request) → W → Answer r
  call canister_id r w = sent canister_id r (payload printer candid r) w

  decoded-eq-ok :
      (r : Request) (d : Result (Response r) Text) (w w' : W) (response : Response r)
      → decoded r d w ≡ (ok response, w')
      → (d ≡ ok response) × (w ≡ w')
  decoded-eq-ok r (ok x) w w' response h = (cc, cc)
  decoded-eq-ok r (err e) w w' response h = cc

  answered-eq-ok :
      (r : Request) (x : Result Bytes Text × W) (w' : W) (response : Response r)
      → answered r x ≡ (ok response, w')
      → (bytes : Bytes) × (x ≡ (ok bytes, w')) × (platform.decode r bytes ≡ ok response)
  answered-eq-ok r (ok bytes, w) w' response h =
      let (d, e) = decoded-eq-ok r (platform.decode r bytes) w w' response h in
      (bytes, rw e refl, d)
  answered-eq-ok r (err e, w) w' response h = cc

  sent-eq-ok :
      (canister_id : Principal) (r : Request) (p : Result Bytes Text) (w w' : W)
      (response : Response r)
      → sent canister_id r p w ≡ (ok response, w')
      → (raw_args bytes : Bytes) × (p ≡ ok raw_args)
        × (platform.bounded_wait canister_id
              (method printer r)
              raw_args
              external_call_timeout_seconds
              w
            ≡ (ok bytes, w'))
        × (platform.decode r bytes ≡ ok response)
  sent-eq-ok canister_id r (ok raw_args) w w' response h =
      let (bytes, e, d) = answered-eq-ok r _ w' response h in (raw_args, bytes, refl, e, d)
  sent-eq-ok canister_id r (err e) w w' response h = cc

  -- The agent gives a response exactly when the request can be encoded, the platform brings back bytes
  -- for it within the timeout, and these decode to the response; the world is then the one that the
  -- platform leaves.
  pub call-eq-ok :
      (canister_id : Principal) (r : Request) (w w' : W) (response : Response r)
      → (call canister_id r w ≡ (ok response, w')) ↔ (
          (raw_args bytes : Bytes) × (payload printer candid r ≡ ok raw_args)
          × (platform.bounded_wait canister_id
                (method printer r)
                raw_args
                external_call_timeout_seconds
                w
              ≡ (ok bytes, w'))
          × (platform.decode r bytes ≡ ok response))
  unfolding call
  call-eq-ok canister_id r w w' response = (
    λ h. sent-eq-ok canister_id r (payload printer candid r) w w' response h,
    λ (raw_args, bytes, h, k, l). rw (h, k, l) refl,
  )
