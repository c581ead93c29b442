-- ===== src/Machine/Emit.antt =====
-- emit_transaction.rs: every call is announced in the audit trail, made, and recorded with its result,
-- and then the state is committed by a call to the canister itself.
pub mod Record
pub mod Invariant
pub mod Quiet
use sns_kongswap_adaptor.Base.{ℕ, Bool, not, ◌&&◌, Option, none, some, ltb, length, if◌then◌else◌}
use sns_kongswap_adaptor.Base.Text.{Text}
use sns_kongswap_adaptor.Base.Result.{Result, ok, err, map_err}
use sns_kongswap_adaptor.Sns.{
  Principal, Error, TransactionWitness, pending, TreasuryManagerOperation,
}
use sns_kongswap_adaptor.AuditTrail.{
  StableTransaction, Trail, push_audit_trail_transaction, set_audit_trail_transaction_result,
}
use sns_kongswap_adaptor.Agent.{Request, Reply, Response, commit_state}
use sns_kongswap_adaptor.Agent.Requests.{method, transaction_witness}
use sns_kongswap_adaptor.Machine.State.{Canister, Env, Machine, ErrorApi}
use sns_kongswap_adaptor.Machine.Run.{
  Flow, done, Action, trap, ◌>>=◌, ◌>>◌, lift, now, modify, agent_call,
}

-- Both what is recorded and what is returned.
abbrev Outcome : Request → Type 0
Outcome r = Result TransactionWitness Error × Result (Reply r) Error

abbrev witnessed : (r : Request) → Result (TransactionWitness × Reply r) Error → Outcome r
witnessed r (err e) = (err e, err e)
witnessed r (ok (witness, reply)) = (ok witness, ok reply)

module _ {W : Type 0} (env : Env W) where
  -- The result of the call, as the middle part of `emit_transaction` computes it.
  unfoldable pub outcome : Principal → (r : Request) → Result (Response r) Text → Outcome r
  outcome canister_id r (err error) =
      let e = env.errors.new_call (method env.printer r) canister_id error in (err e, err e)
  outcome canister_id r (ok response) =
      witnessed r
        (map_err env.errors.new_backend (transaction_witness env.printer r canister_id response))

  -- `Vec::push` of the stable vector panics where the entry is beyond `StableTransaction::BOUND`.
  push : StableTransaction → Action W (Option ℕ) Error
  unfolding trap
  push transaction m =
      let (index, trail) =
        push_audit_trail_transaction (env.grows m.world) transaction m.canister.audit_trail in
      if env.fits transaction
      then (done index, record m { canister = record m.canister { audit_trail = trail } })
      else trap m

  -- `Vec::set` panics likewise; it is reached where the index is that of an entry.
  abbrev pub oversized : ℕ → StableTransaction → Trail → Bool
  oversized index transaction trail = not (env.fits transaction) && ltb index (length trail)

  record_result : Option ℕ → StableTransaction → Action W (Unit {0}) Error
  unfolding trap
  record_result none transaction m = (done tt, m)
  record_result (some index) transaction m =
      if oversized index transaction m.canister.audit_trail then trap m else (
        done tt,
        record m {
          canister = record m.canister {
            audit_trail =
                set_audit_trail_transaction_result index transaction m.canister.audit_trail;
          };
        },
      )

  unfoldable pub emit_transaction :
      TreasuryManagerOperation → Principal → (r : Request) → Text → Action W (Reply r) Error
  unfolding ◌>>=◌ now push agent_call record_result outcome
  emit_transaction operation canister_id r human_readable = do
    timestamp_ns ← now env
    let pending_transaction : StableTransaction = record {
      timestamp_ns = timestamp_ns;
      canister_id = canister_id;
      result = ok pending;
      human_readable = human_readable;
      operation = operation;
    }
    index ← push pending_transaction
    answer ← agent_call env canister_id r
    let (result, function_output) = outcome canister_id r answer
    record_result index (record pending_transaction { result = result })
    agent_call env env.id commit_state
    lift function_output
