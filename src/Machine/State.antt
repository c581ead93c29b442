-- ===== src/Machine/State.antt =====
-- The state, and the world that it runs in.
use sns_kongswap_adaptor.Base.{ℕ, Bool}
use sns_kongswap_adaptor.Base.Text.{Text}
use sns_kongswap_adaptor.Base.Result.{Result}
use sns_kongswap_adaptor.Sns.{Principal, Error}
use sns_kongswap_adaptor.Validation.Asset.{Display}
use sns_kongswap_adaptor.Balances.{ValidatedBalances}
use sns_kongswap_adaptor.AuditTrail.{Trail, StableTransaction}
use sns_kongswap_adaptor.Context.{OperationContext}
use sns_kongswap_adaptor.Agent.{Request, Response}
use sns_kongswap_adaptor.Agent.Witness.{Printer}

-- state/storage.rs
pub data ConfigState : Type 0 where
  uninitialized : ConfigState
  initialized : ValidatedBalances → ConfigState

-- The two stable structures that `KongSwapAdaptor` points to.
pub record Canister : Type 0 where
  pub balances : ConfigState
  pub audit_trail : Trail

-- The error constructors of the treasury manager API.
pub record ErrorApi : Type 0 where
  pub new_precondition : Text → Error
  pub new_postcondition : Text → Error
  pub new_backend : Text → Error
  pub new_temporarily_unavailable : Text → Error
  pub new_call : Text → Principal → Text → Error

-- IEEE 754 arithmetic on the bit patterns of 64-bit floats.
pub record FloatApi : Type 0 where
  pub is_nan : ℕ → Bool
  pub of_u64 : ℕ → ℕ
  pub mul : ℕ → ℕ → ℕ
  pub clamp : ℕ → ℕ → ℕ → ℕ
  pub round : ℕ → ℕ
  pub to_u64 : ℕ → ℕ

-- The platform: the canister's own id and those of the two canisters that it knows, the clock, the
-- answers to its calls (an agent's error by what it prints), whether the stable vector can grow,
-- whether the encoding of an entry of the audit trail, which candid makes, has at most 2048 bytes,
-- whether the build checks for overflow, and the messages that run while a call is awaited.
pub record Env (W : Type 0) : Type 0 where
  pub id : Principal
  pub kong_backend_canister_id : Principal
  pub icp_ledger_canister_id : Principal
  pub time_ns : W → ℕ
  pub call : Principal → (r : Request) → W → Result (Response r) Text × W
  pub grows : W → Bool
  pub fits : StableTransaction → Bool
  pub overflow_checks : Bool
  pub others : W → Canister → Canister
  pub errors : ErrorApi
  pub printer : Printer
  pub display : Display
  pub floats : FloatApi

-- `context` is the operation context of the running handler, which its functions pass on by `&mut`.
pub record Machine (W : Type 0) : Type 0 where
  pub canister : Canister
  pub committed : Canister
  pub context : OperationContext
  pub world : W
