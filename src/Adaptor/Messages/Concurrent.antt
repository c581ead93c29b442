-- ===== src/Adaptor/Messages/Concurrent.antt =====
-- What the calls of the other operations do to the lock, which does not exclude them.
use sns_kongswap_adaptor.Base.{
  ℕ, ap, [], ◌∷◌, ◌++◌, length, ◌≡◌, refl, ◌∙◌, false, Bool-cases, inl, inr,
}
use sns_kongswap_adaptor.Base.Text.{Text}
use sns_kongswap_adaptor.Base.Result.{Result, ok, err}
use sns_kongswap_adaptor.Sns.{Principal, Error, pending, TreasuryManagerOperation}
use sns_kongswap_adaptor.AuditTrail.{
  is_locking_transaction, check_state_lock, push_audit_trail_transaction,
}
use sns_kongswap_adaptor.AuditTrail.Unlocking.{
  check_state_lock-append, set_audit_trail_transaction_result-append,
}
use sns_kongswap_adaptor.Agent.{Request}
use sns_kongswap_adaptor.Machine.{Env, Machine, lift}
use sns_kongswap_adaptor.Machine.Emit.{emit_transaction, outcome, oversized}
use sns_kongswap_adaptor.Adaptor.Messages.Exclusive.{alone}
use sns_kongswap_adaptor.Machine.Emit.Record.{announced}

lifted :
    {W A E : Type 0} (unavailable : Text → Error) (now : ℕ) (x : Result A E) (m : Machine W)
    → check_state_lock unavailable now (lift x m).1.canister.audit_trail
      ≡ check_state_lock unavailable now m.canister.audit_trail
unfolding lift
lifted unavailable now (ok a) m = refl
lifted unavailable now (err e) m = refl

-- A call of an operation that is neither a deposit nor a withdrawal, such as the refresh of the
-- balances with which a withdrawal begins, neither takes the lock nor releases it: after the call,
-- whatever it was answered and also where it traps, the check of the lock has at any time the result
-- that it had before, while nothing else runs. A trap goes back to the last commit, which is to hold
-- the trail as it is when the call begins.
pub check_state_lock-emit_transaction :
    {W : Type 0} (env : Env W) (unavailable : Text → Error) (now : ℕ)
    (op : TreasuryManagerOperation) (p : Principal) (r : Request) (purpose : Text) (m : Machine W)
    → is_locking_transaction op ≡ false
    → m.committed.audit_trail ≡ m.canister.audit_trail
    → check_state_lock unavailable now
        (emit_transaction (alone env) op p r purpose m).1.canister.audit_trail
      ≡ check_state_lock unavailable now m.canister.audit_trail
unfolding emit_transaction push_audit_trail_transaction
check_state_lock-emit_transaction {W} env unavailable now op p r purpose m h committed =
    let trail = m.canister.audit_trail in
    let out = outcome env p r (env.call p r m.world).0 in
    let t = announced env op p purpose m (ok pending) in
    let s = announced env op p purpose m out.0 in
    let announced_first = check_state_lock-append unavailable now trail t h in
    let kept = check_state_lock-append unavailable now trail s h in
    let written = set_audit_trail_transaction_result-append t s trail in
    elim (Bool-cases (env.fits t)) [
      | inr i ↦ rw i (ap (check_state_lock unavailable now) committed)
      | inl i ↦ elim (Bool-cases (env.grows m.world)) [
        | inr e ↦ rw (i, e) (lifted unavailable now out.1 _)
        | inl e ↦ elim (Bool-cases (oversized env (length trail) s (trail ++ t ∷ []))) [
          | inl j ↦ rw (i, e, j) announced_first
          | inr j ↦ rw (i, e, j, written) (lifted unavailable now out.1 _ ∙ kept)
        ]
      ]
    ]
