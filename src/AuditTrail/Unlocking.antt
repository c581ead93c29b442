-- ===== src/AuditTrail/Unlocking.antt =====
-- The transactions of the other operations, beside the lock.
use mathlib.Core.List.{reverse, map-append}
use sns_kongswap_adaptor.Base.{
  ℕ, ◌≡◌, refl, ap, false, [], ◌∷◌, ◌++◌, length, length-append, arith, lt→ltb, map,
}
use sns_kongswap_adaptor.Base.Text.{Text}
use sns_kongswap_adaptor.Base.Search.{find, reverse-cut}
use sns_kongswap_adaptor.Sns.{Error}
use sns_kongswap_adaptor.AuditTrail.{
  StableTransaction, Trail, locks, transaction_from, get_audit_trail, remaining_of,
  get_remaining_lock_duration_ns, check_state_lock, lock_answer, set_audit_trail_transaction_result,
}
use sns_kongswap_adaptor.AuditTrail.Finalize.{set-cut}
use sns_kongswap_adaptor.AuditTrail.Lock.{is_locking}

find_lock-append :
    (trail : Trail) (t : StableTransaction)
    → is_locking t ≡ false
    → find locks (reverse (get_audit_trail (trail ++ t ∷ [])))
      ≡ find locks (reverse (get_audit_trail trail))
unfolding get_audit_trail transaction_from
find_lock-append trail t h =
    rw (map-append, reverse-cut (map transaction_from trail) (transaction_from t) []) (rw h refl)

-- A last transaction that is neither of a deposit nor of a withdrawal does not count for the lock.
pub check_state_lock-append :
    (unavailable : Text → Error) (now : ℕ) (trail : Trail) (t : StableTransaction)
    → is_locking t ≡ false
    → check_state_lock unavailable now (trail ++ t ∷ []) ≡ check_state_lock unavailable now trail
unfolding check_state_lock get_remaining_lock_duration_ns
check_state_lock-append unavailable now trail t h =
    ap (λ x. lock_answer unavailable (remaining_of now x)) (find_lock-append trail t h)

-- Its result takes the place of the last transaction.
pub set_audit_trail_transaction_result-append :
    (t s : StableTransaction) (trail : Trail)
    → set_audit_trail_transaction_result (length trail) s (trail ++ t ∷ []) ≡ trail ++ s ∷ []
unfolding set_audit_trail_transaction_result
set_audit_trail_transaction_result-append t s trail =
    let size = length-append trail (t ∷ []) in
    rw (lt→ltb (length trail) (length (trail ++ t ∷ [])) (omega arith)) (set-cut trail t s [])
