-- ===== src/Adaptor/Manager/Guards.antt =====
-- What stops an update method before it does anything.
use sns_kongswap_adaptor.Base.{
  ◌≡◌, refl, ◌∙◌, ap, ◌+◌, ◌-◌, ◌/◌, ◌≤◌, true, false, List, [], ◌∷◌, ◌++◌,
}
use sns_kongswap_adaptor.Base.Search.{fails}
use sns_kongswap_adaptor.Base.Text.{str, decimal}
use sns_kongswap_adaptor.Arithmetics.{u64_max}
use sns_kongswap_adaptor.AuditTrail.Lock.{is_locking, push_locks}
use sns_kongswap_adaptor.AuditTrail.{
  StableTransaction, Trail, push_audit_trail_transaction, max_lock_duration_ns, ns_in_second,
}
use sns_kongswap_adaptor.Base.Result.{err}
use sns_kongswap_adaptor.Sns.{Error, DepositRequest, WithdrawRequest}
use sns_kongswap_adaptor.AuditTrail.{lock_answer, get_remaining_lock_duration_ns}
use sns_kongswap_adaptor.AuditTrail
use sns_kongswap_adaptor.Machine.{Env, Machine, fail, ◌>>=◌, lift, now, get_canister}
use sns_kongswap_adaptor.Adaptor.Manager.{check_state_lock, deposit, withdraw}

-- While the check of the lock fails, both handlers fail with its errors, call nothing, and leave
-- all of the state as it is.
pub handlers_refuse_locked :
    {W : Type 0} (env : Env W) (d : DepositRequest) (w : WithdrawRequest) (m : Machine W)
    (errors : List Error)
    → AuditTrail.check_state_lock env.errors.new_temporarily_unavailable
        (env.time_ns m.world)
        m.canister.audit_trail
      ≡ err errors
    → (deposit env d m ≡ (fail errors, m)) × (withdraw env w m ≡ (fail errors, m))
unfolding deposit withdraw check_state_lock ◌>>=◌ lift now get_canister
handlers_refuse_locked env d w m errors h = (rw h refl, rw h refl)

-- Once a transaction of a deposit or of a withdrawal has been pushed that is not final, whatever
-- entries of other operations follow it: until 45 minutes after it, every deposit and every withdrawal,
-- with any request, fails with the one error that new_temporarily_unavailable makes of the whole
-- seconds that remain, calls nothing, and leaves all of the state as it is. The transaction is to begin
-- 45 minutes or more before the end of 64-bit time.
pub handlers_wait :
    {W : Type 0} (env : Env W) (d : DepositRequest) (w : WithdrawRequest) (m : Machine W)
    (t : StableTransaction) (before after : Trail)
    → m.canister.audit_trail ≡ (push_audit_trail_transaction true t before).1 ++ after
    → is_locking t ≡ true
    → t.operation.step.is_final ≡ false
    → fails is_locking after ≡ true
    → t.timestamp_ns + max_lock_duration_ns ≤ u64_max
    → env.time_ns m.world ≤ t.timestamp_ns + max_lock_duration_ns
    → let e = env.errors.new_temporarily_unavailable (
        str "Canister state is locked. Please try again in "
        ++ (decimal ((t.timestamp_ns + max_lock_duration_ns - env.time_ns m.world) / ns_in_second)
            ++ str " seconds.")) in
      (deposit env d m ≡ (fail (e ∷ []), m)) × (withdraw env w m ≡ (fail (e ∷ []), m))
handlers_wait env d w m t before after e h open_ others fits early =
    handlers_refuse_locked env d w m _ (
      ap (AuditTrail.check_state_lock env.errors.new_temporarily_unavailable (env.time_ns m.world))
        e
      ∙ push_locks env.errors.new_temporarily_unavailable (env.time_ns m.world) t before after h
          open_ others fits early)
