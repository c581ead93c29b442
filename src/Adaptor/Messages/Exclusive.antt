-- ===== src/Adaptor/Messages/Exclusive.antt =====
-- What deposits and withdrawals do that arrive while a call of a deposit or a withdrawal is awaited.
use mathlib.Core.List.{append-nil}
use sns_kongswap_adaptor.Base.{
  ℕ, ◌≡◌, refl, ◌∙◌, ap, ◌+◌, ◌≤◌, Bool, true, false, List, [], ◌∷◌, ◌++◌, ◌||◌, Bool-cases, inl,
  inr, length, none,
}
use sns_kongswap_adaptor.Base.Text.{Text}
use sns_kongswap_adaptor.Base.Result.{ok, err}
use sns_kongswap_adaptor.Arithmetics.{u64_max}
use sns_kongswap_adaptor.Sns.{
  Principal, principal_eq, Error, pending, TreasuryManagerOperation, DepositRequest,
  WithdrawRequest,
}
use sns_kongswap_adaptor.Context.{OperationContext}
use sns_kongswap_adaptor.AuditTrail.{
  StableTransaction, Trail, is_locking_transaction, check_state_lock, max_lock_duration_ns,
  push_audit_trail_transaction, set_audit_trail_transaction_result,
}
use sns_kongswap_adaptor.AuditTrail.Unlocking.{set_audit_trail_transaction_result-append}
use sns_kongswap_adaptor.AuditTrail.Lock.{is_locking, push_locks}
use sns_kongswap_adaptor.Agent.{Request, commit_state}
use sns_kongswap_adaptor.Machine.{Canister, Env, Machine, fail, ◌>>=◌}
use sns_kongswap_adaptor.Machine.Emit.Record.{announced}
use sns_kongswap_adaptor.Machine.Emit.{oversized, emit_transaction, outcome}
use sns_kongswap_adaptor.Adaptor.Manager.{
  check_access, deposit, withdraw, deposit_endpoint, withdraw_endpoint,
}
use sns_kongswap_adaptor.Adaptor.Manager.Guards.{handlers_refuse_locked}
use sns_kongswap_adaptor.Adaptor.Messages.{Message, process, process_all}

-- Deposits and withdrawals, of any callers and with any requests.
abbrev pub AreUpdates : List Message → Type 0
AreUpdates [] = Unit
AreUpdates (Message.deposit caller request ∷ messages) = AreUpdates messages
AreUpdates (Message.withdraw caller request ∷ messages) = AreUpdates messages
AreUpdates (Message.periodic_tasks ∷ messages) = ⊥

-- A message begins on what was committed last, with a context of its own.
abbrev pub begin : {W : Type 0} → Canister → OperationContext → W → Machine W
begin c x w = record { canister = c; committed = c; context = x; world = w }

-- While a call is awaited, these messages run, in this order.
abbrev pub interleaved :
    {W : Type 0} → Env W → (Principal → Bool) → OperationContext → (W → List Message) → Env W
interleaved env is_controller x messages = record env {
  others = λ w c. (process_all env is_controller (messages w) (begin c x w)).canister;
}

-- Nothing runs while a call is awaited.
abbrev pub alone : {W : Type 0} → Env W → Env W
alone env = record env { others = λ w c. c }

module _ {W : Type 0} (env : Env W) (f : Principal → Bool) (c : Canister) (x : OperationContext)
    (w : W) (errors : List Error)
    (locked : check_state_lock env.errors.new_temporarily_unavailable (env.time_ns w) c.audit_trail
      ≡ err errors) where
  refused :
      (d : DepositRequest) (r : WithdrawRequest)
      → (deposit env d (begin c x w) ≡ (fail errors, begin c x w))
        × (withdraw env r (begin c x w) ≡ (fail errors, begin c x w))
  refused d r = handlers_refuse_locked env d r (begin c x w) errors locked

  deposit-refused :
      (p : Principal) (d : DepositRequest)
      → process env f (Message.deposit p d) (begin c x w) ≡ begin c x w
  unfolding process deposit_endpoint check_access ◌>>=◌
  deposit-refused p d = elim (Bool-cases (principal_eq p env.id || f p)) [
    | inl e ↦ rw (e, (refused d (record { withdraw_accounts = none })).0) refl
    | inr e ↦ rw e refl
  ]

  withdraw-refused :
      (p : Principal) (r : WithdrawRequest)
      → process env f (Message.withdraw p r) (begin c x w) ≡ begin c x w
  unfolding process withdraw_endpoint check_access ◌>>=◌
  withdraw-refused p r = elim (Bool-cases (principal_eq p env.id || f p)) [
    | inl e ↦ rw (e, (refused (record { allowances = [] }) r).1) refl
    | inr e ↦ rw e refl
  ]

  all_refused :
      (messages : List Message)
      → AreUpdates messages
      → process_all env f messages (begin c x w) ≡ begin c x w
  unfolding process_all
  all_refused [] h = refl
  all_refused (Message.deposit p d ∷ messages) h =
      ap (process_all env f messages) (deposit-refused p d) ∙ all_refused messages h
  all_refused (Message.withdraw p r ∷ messages) h =
      ap (process_all env f messages) (withdraw-refused p r) ∙ all_refused messages h
  all_refused (Message.periodic_tasks ∷ messages) h = elim h [ ]

-- The lock that the last transaction of a trail holds.
held :
    (unavailable : Text → Error) (now : ℕ) (t : StableTransaction) (trail : Trail)
    → is_locking t ≡ true
    → t.operation.step.is_final ≡ false
    → t.timestamp_ns + max_lock_duration_ns ≤ u64_max
    → now ≤ t.timestamp_ns + max_lock_duration_ns
    → (errors : List Error) × (check_state_lock unavailable now (trail ++ t ∷ []) ≡ err errors)
unfolding push_audit_trail_transaction
held unavailable now t trail h open_ fits early =
    let e = push_locks unavailable now t trail [] h open_ refl fits early in
    (_, rw (append-nil (trail ++ t ∷ [])) at e)

module _ {W : Type 0} (env : Env W) (f : Principal → Bool) (x : OperationContext)
    (messages : W → List Message) (updates : (w : W) → AreUpdates (messages w)) where
  -- While the last transaction holds the lock, the messages leave the state alone.
  undisturbed :
      (t : StableTransaction) (trail : Trail) (c : Canister) (w : W)
      → c.audit_trail ≡ trail ++ t ∷ []
      → is_locking t ≡ true
      → t.operation.step.is_final ≡ false
      → t.timestamp_ns + max_lock_duration_ns ≤ u64_max
      → env.time_ns w ≤ t.timestamp_ns + max_lock_duration_ns
      → (process_all env f (messages w) (begin c x w)).canister ≡ c
  undisturbed t trail c w e h open_ fits early =
      let (errors, k) =
        held env.errors.new_temporarily_unavailable (env.time_ns w) t trail h open_ fits early in
      ap (λ m. m.canister) (all_refused env f c x w errors (rw e k) (messages w) (updates w))

-- A call of a deposit or of a withdrawal, from a transaction that is not final and that the trail has
-- room for, excludes other deposits and withdrawals: whatever sequences of them, of any callers, run
-- while the call and the commit after it are awaited, the call returns the same value or error and
-- leaves the same state as when nothing runs. It is to be begun 45 minutes or more before the end of
-- 64-bit time, and both answers are to arrive within 45 minutes.
pub emit_transaction_excludes :
    {W : Type 0} (env : Env W) (is_controller : Principal → Bool) (x : OperationContext)
    (messages : W → List Message) (op : TreasuryManagerOperation) (p : Principal) (r : Request)
    (purpose : Text) (m : Machine W)
    → ((w : W) → AreUpdates (messages w))
    → is_locking_transaction op ≡ true
    → op.step.is_final ≡ false
    → env.grows m.world ≡ true
    → env.time_ns m.world + max_lock_duration_ns ≤ u64_max
    → let answered = (env.call p r m.world).1 in
      let resumed = (env.call env.id commit_state answered).1 in
      env.time_ns answered ≤ env.time_ns m.world + max_lock_duration_ns
      → env.time_ns resumed ≤ env.time_ns m.world + max_lock_duration_ns
      → emit_transaction (interleaved env is_controller x messages) op p r purpose m
        ≡ emit_transaction (alone env) op p r purpose m
unfolding emit_transaction push_audit_trail_transaction
emit_transaction_excludes {W} env f x messages op p r purpose m updates h open_ grew fits early
      late =
    let trail = m.canister.audit_trail in
    let (answer, answered) = env.call p r m.world in
    let resumed = (env.call env.id commit_state answered).1 in
    let t = announced env op p purpose m (ok pending) in
    let s = announced env op p purpose m (outcome env p r answer).0 in
    let pushed : Canister = record m.canister { audit_trail = trail ++ t ∷ [] } in
    let recorded : Canister = record m.canister {
      audit_trail = set_audit_trail_transaction_result (length trail) s (trail ++ t ∷ []);
    } in
    let first =
      undisturbed env f x messages updates t trail pushed answered refl h open_ fits early in
    let second =
      undisturbed env f x messages updates s trail recorded resumed
        (set_audit_trail_transaction_result-append t s trail) h open_ fits late in
    elim (Bool-cases (env.fits t)) [
      | inr i ↦ rw i refl
      | inl i ↦ elim (Bool-cases (oversized env (length trail) s (trail ++ t ∷ []))) [
        | inl j ↦ rw (i, grew, first, j) refl
        | inr j ↦ rw (i, grew, first, j, second) refl
      ]
    ]
