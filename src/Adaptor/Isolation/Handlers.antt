-- ===== src/Adaptor/Isolation/Handlers.antt =====
-- That a deposit or a withdrawal is isolated from those that arrive while it runs.
use mathlib.Core.Path.{fun_ext}
use sns_kongswap_adaptor.Base.{
  ◌≡◌, refl, ap, ◌+◌, ◌≤◌, Bool, true, Bool-cases, List, inl, inr, [], ◌∷◌, ◌++◌, length,
}
use sns_kongswap_adaptor.Base.Text.{Text}
use sns_kongswap_adaptor.Base.Result.{Result, ok, err}
use sns_kongswap_adaptor.Arithmetics.{u64_max}
use sns_kongswap_adaptor.Sns.{
  pending, Principal, Account, Operation, DepositRequest, TreasuryManagerOperation,
}
use sns_kongswap_adaptor.Context.{OperationContext}
use sns_kongswap_adaptor.AuditTrail.{max_lock_duration_ns, push_audit_trail_transaction}
use sns_kongswap_adaptor.Agent.{Request, commit_state}
use sns_kongswap_adaptor.Machine.{Env, Machine, lift, pure, now, Action, ◌>>=◌, ◌>>◌, set_context}
use sns_kongswap_adaptor.Machine.Agrees.{Agrees, Locking, pure-Agrees, bind-Agrees, modify-Agrees}
use sns_kongswap_adaptor.Machine.Emit.{emit_transaction, outcome, oversized}
use sns_kongswap_adaptor.Machine.Emit.Record.{announced}
use sns_kongswap_adaptor.Adaptor.Withdraw.{withdraw_impl}
use sns_kongswap_adaptor.Adaptor.Messages.{Message, process_all}
use sns_kongswap_adaptor.Adaptor.Messages.Exclusive.{
  AreUpdates, begin, interleaved, alone, emit_transaction_excludes,
}
use sns_kongswap_adaptor.Adaptor.Isolation.{IsIsolated}
use sns_kongswap_adaptor.Validation.Allowance.{ValidatedAllowance}
use sns_kongswap_adaptor.Adaptor.Deposit.{deposit_impl, validate_deposit_args}
use sns_kongswap_adaptor.Adaptor.Manager.{deposit, check_state_lock}
use sns_kongswap_adaptor.Adaptor.State.{finalize_audit_trail_transaction}
use sns_kongswap_adaptor.Context
use sns_kongswap_adaptor.Validation.View.{balances_from}
use sns_kongswap_adaptor.Adaptor.Isolation.Deposit.{deposit_impl-Agrees}
use sns_kongswap_adaptor.Adaptor.Isolation.Withdraw.{withdraw_impl-Agrees}

-- The trail has room, the clock is 45 minutes or more before the end of 64-bit time, and each call,
-- with the commit after it, is answered within 45 minutes.
pub record IsPrompt {W : Type 0} (env : Env W) : Type 0 where
  pub grows : (w : W) → env.grows w ≡ true
  pub fits : (w : W) → env.time_ns w + max_lock_duration_ns ≤ u64_max
  pub answered :
      (p : Principal) (r : Request) (w : W)
      → env.time_ns (env.call p r w).1 ≤ env.time_ns w + max_lock_duration_ns
  pub resumed :
      (p : Principal) (r : Request) (w : W)
      → env.time_ns (env.call env.id commit_state (env.call p r w).1).1
        ≤ env.time_ns w + max_lock_duration_ns

lifted : {W A E : Type 0} (x : Result A E) (m : Machine W) → (lift x m).1.context ≡ m.context
unfolding lift
lifted (ok a) m = refl
lifted (err e) m = refl

-- A call leaves the context alone.
emit_transaction-context :
    {W : Type 0} (env : Env W) (op : TreasuryManagerOperation) (p : Principal) (r : Request)
    (purpose : Text) (m : Machine W)
    → (emit_transaction env op p r purpose m).1.context ≡ m.context
unfolding emit_transaction push_audit_trail_transaction
emit_transaction-context env op p r purpose m =
    let out = outcome env p r (env.call p r m.world).0 in
    let t = announced env op p purpose m (ok pending) in
    let s = announced env op p purpose m out.0 in
    let trail = m.canister.audit_trail in
    let resumed =
      env.others (env.call p r m.world).1 (record m.canister { audit_trail = trail ++ t ∷ [] }) in
    elim (Bool-cases (env.fits t)) [
      | inr i ↦ rw i refl
      | inl i ↦ elim (Bool-cases (env.grows m.world)) [
        | inr e ↦ rw (i, e) (lifted out.1 _)
        | inl e ↦ elim (Bool-cases (oversized env (length trail) s resumed.audit_trail)) [
          | inl j ↦ rw (i, e, j) refl
          | inr j ↦ rw (i, e, j) (lifted out.1 _)
        ]
      ]
    ]

module _ {W A B E : Type 0} where
  bind-eq :
      (x : Action W A E) {k k' : A → Action W B E} → ((a : A) → k a ≡ k' a) → (x >>= k) ≡ (x >>= k')
  bind-eq x h = ap (λ k. x >>= k) (fun_ext h)

module _ {W A E : Type 0} where
  -- From here on, the operation takes the lock.
  set_context-eq :
      (op : Operation) (k k' : Unit {0} → Action W A E)
      → Locking op
      → Agrees (k tt) (k' tt)
      → (set_context op >>= k) ≡ (set_context op >>= k')
  unfolding ◌>>=◌ set_context Context.new
  set_context-eq op k k' l h = fun_ext (λ m. h.same _ l)

module _ {W E : Type 0} where
  finalize-Agrees :
      (op : Operation)
      → Agrees
          (finalize_audit_trail_transaction {W = W} {E = E} op)
          (finalize_audit_trail_transaction op)
  unfolding finalize_audit_trail_transaction
  finalize-Agrees op = modify-Agrees _

module _ {W : Type 0} (env : Env W) (prompt : IsPrompt env) (f : Principal → Bool)
    (x : OperationContext) (messages : W → List Message)
    (updates : (w : W) → AreUpdates (messages w)) where
  isolated : IsIsolated (alone env) (λ w c. (process_all env f (messages w) (begin c x w)).canister)
  isolated = record {
    emit = λ op p r purpose h k. record {
      same = λ m l.
          emit_transaction_excludes env f x messages op p r purpose m updates h k
            (prompt.grows m.world) (prompt.fits m.world) (prompt.answered p r m.world)
            (prompt.resumed p r m.world);
      stays = λ m l. rw (emit_transaction-context (alone env) op p r purpose m) l;
    };
  }

  pub deposit_impl-isolated :
      (a b : ValidatedAllowance) (m : Machine W)
      → m.context.operation ≡ Operation.deposit
      → deposit_impl (interleaved env f x messages) a b m ≡ deposit_impl (alone env) a b m
  deposit_impl-isolated a b m h = (deposit_impl-Agrees isolated a b).same m (inl h)

  pub withdraw_impl-isolated :
      (a b : Account) (m : Machine W)
      → m.context.operation ≡ Operation.withdraw
      → withdraw_impl (interleaved env f x messages) a b m ≡ withdraw_impl (alone env) a b m
  withdraw_impl-isolated a b m h = (withdraw_impl-Agrees isolated a b).same m (inr h)

  finishes :
      (a b : ValidatedAllowance)
      → Agrees
          (deposit_impl (interleaved env f x messages) a b >>= λ d.
            finalize_audit_trail_transaction Operation.deposit >> pure (balances_from d))
          (deposit_impl (alone env) a b >>= λ d.
            finalize_audit_trail_transaction Operation.deposit >> pure (balances_from d))
  finishes a b =
      bind-Agrees (deposit_impl-Agrees isolated a b)
        (λ d. bind-Agrees (finalize-Agrees Operation.deposit) (λ u. pure-Agrees _))

  deposit-isolated :
      (request : DepositRequest)
      → deposit (interleaved env f x messages) request ≡ deposit (alone env) request
  unfolding deposit check_state_lock validate_deposit_args now
  deposit-isolated request = bind-eq _ (λ u. bind-eq _ (λ v. bind-eq _ (λ w.
      set_context-eq Operation.deposit _ _ (inl refl) (finishes v.allowance_0 v.allowance_1))))

-- A deposit, from its check of the lock to its answer, and `withdraw_impl`, the part of a withdrawal
-- after its refresh of the balances, are isolated from deposits and withdrawals: whatever sequences of
-- these, of any callers, arrive at every call that is awaited, they end in the same way and leave the
-- same state as when nothing arrives; as long as the trail has room, the clock is 45 minutes or more
-- before the end of 64-bit time, and each call, with the commit after it, is answered within 45
-- minutes. During the refresh with which a withdrawal begins other messages are admitted.
pub handlers_isolated :
    {W : Type 0} (env : Env W) (is_controller : Principal → Bool) (x : OperationContext)
    (messages : W → List Message) (request : DepositRequest) (a b : Account) (m m' : Machine W)
    → IsPrompt env
    → ((w : W) → AreUpdates (messages w))
    → m'.context.operation ≡ Operation.withdraw
    → (deposit (interleaved env is_controller x messages) request m ≡ deposit (alone env) request m)
      × (withdraw_impl (interleaved env is_controller x messages) a b m'
          ≡ withdraw_impl (alone env) a b m')
handlers_isolated env f x messages request a b m m' prompt updates h = (
  ap (λ y. y m) (deposit-isolated env prompt f x messages updates request),
  withdraw_impl-isolated env prompt f x messages updates a b m' h,
)
