-- ===== src/AuditTrail/Lock.antt =====
-- The lock: when it is held, how long, and how it is released.
use mathlib.Core.List.{reverse, map-append, append_assoc}
use sns_kongswap_adaptor.Base.{
  ℕ, ◌+◌, ◌-◌, ◌/◌, ◌≤◌, ◌<◌, ◌≡◌, refl, ◌∙◌, ap, Bool, true, false, none, some, [], ◌∷◌, ◌++◌,
  arith, ltb, if◌then◌else◌, length, map,
}
use sns_kongswap_adaptor.Base.Text.{Text, str, decimal}
use sns_kongswap_adaptor.Base.Result.{ok, err}
use sns_kongswap_adaptor.Base.Search.{
  Last, absent, cut, last_match, fails, fails-reverse, find, find-cut, find-fails, reverse-cut,
}
use sns_kongswap_adaptor.Arithmetics.{u64_max}
use sns_kongswap_adaptor.Arithmetics.Laws.{logged_saturating_add_lem, logged_saturating_sub_lem}
use sns_kongswap_adaptor.Sns.{Error, Operation, operation_eq}
use sns_kongswap_adaptor.AuditTrail.{
  StableTransaction, Trail, is_open, finalized, finalize_audit_trail_transaction, locks,
  is_locking_transaction, transaction_from, get_audit_trail, get_remaining_lock_duration_ns,
  check_state_lock, lock_answer, remaining_of, max_lock_duration_ns, push_audit_trail_transaction,
  ns_in_second,
}
use sns_kongswap_adaptor.AuditTrail.Finalize.{finalize-cut}

abbrev pub is_locking : StableTransaction → Bool
is_locking t = is_locking_transaction t.operation

fails-get_audit_trail :
    (trail : Trail) → fails locks (map transaction_from trail) ≡ fails is_locking trail
unfolding transaction_from
fails-get_audit_trail [] = refl
fails-get_audit_trail (t ∷ trail) = rw (fails-get_audit_trail trail)

find_lock-cut :
    (before : Trail) (t : StableTransaction) (after : Trail)
    → is_locking t ≡ true
    → fails is_locking after ≡ true
    → find locks (reverse (get_audit_trail (before ++ t ∷ after))) ≡ some (transaction_from t)
unfolding get_audit_trail
find_lock-cut before t after h k =
    rw
      (
        map-append,
        reverse-cut (map transaction_from before) (transaction_from t) (map transaction_from after),
      )
      (find-cut locks (reverse (map transaction_from after)) (transaction_from t)
        (reverse (map transaction_from before))
        (fails-reverse locks (map transaction_from after) ∙ fails-get_audit_trail after ∙ k)
        (unfold transaction_from in h))

find_lock-fails :
    (trail : Trail)
    → fails is_locking trail ≡ true
    → find locks (reverse (get_audit_trail trail)) ≡ none
unfolding get_audit_trail
find_lock-fails trail h =
    find-fails locks (reverse (map transaction_from trail))
      (fails-reverse locks (map transaction_from trail) ∙ fails-get_audit_trail trail ∙ h)

-- The remaining time of a lock that was taken at `timestamp_ns`, for timestamps that leave 45
-- minutes before the end of time.
remaining_of_open :
    (now : ℕ) (t : StableTransaction)
    → t.operation.step.is_final ≡ false
    → t.timestamp_ns + max_lock_duration_ns ≤ u64_max
    → remaining_of now (some (transaction_from t)) ≡ (
        if ltb (t.timestamp_ns + max_lock_duration_ns) now
        then none
        else some (t.timestamp_ns + max_lock_duration_ns - now))
unfolding transaction_from
remaining_of_open now t h fits =
    simp (logged_saturating_sub_lem, logged_saturating_add_lem) (ground arith)

-- The last deposit or withdrawal of the trail decides: if it is open, the lock lasts until 45
-- minutes after its timestamp, that moment included; if it is final, there is no lock. Its
-- timestamp is to be 45 minutes or more before the end of 64-bit time.
pub get_remaining_lock_duration_ns_lem :
    (now : ℕ) (before : Trail) (t : StableTransaction) (after : Trail)
    → is_locking t ≡ true
    → fails is_locking after ≡ true
    → t.timestamp_ns + max_lock_duration_ns ≤ u64_max
    → get_remaining_lock_duration_ns now (before ++ t ∷ after) ≡ (
        if t.operation.step.is_final
        then none
        else if ltb (t.timestamp_ns + max_lock_duration_ns) now
        then none
        else some (t.timestamp_ns + max_lock_duration_ns - now))
unfolding get_remaining_lock_duration_ns
get_remaining_lock_duration_ns_lem now before t after h k fits =
    ap (remaining_of now) (find_lock-cut before t after h k)
    ∙ (unfold transaction_from in
        simp (logged_saturating_sub_lem, logged_saturating_add_lem) (ground arith))

-- Without a deposit or a withdrawal there is no lock.
unlocked_without_locking :
    (now : ℕ) (trail : Trail)
    → fails is_locking trail ≡ true
    → get_remaining_lock_duration_ns now trail ≡ none
unfolding get_remaining_lock_duration_ns
unlocked_without_locking now trail h = ap (remaining_of now) (find_lock-fails trail h)

-- Every transaction was begun at `latest` or before.
abbrev pub AllBefore : ℕ → Trail → Type 0
AllBefore latest [] = Unit
AllBefore latest (t ∷ trail) = (t.timestamp_ns ≤ latest) × AllBefore latest trail

AllBefore-cut :
    (latest : ℕ) (before : Trail) (t : StableTransaction) (after : Trail)
    → AllBefore latest (before ++ t ∷ after)
    → t.timestamp_ns ≤ latest
AllBefore-cut latest [] t after h = h.0
AllBefore-cut latest (x ∷ before) t after h = AllBefore-cut latest before t after h.1

module _ (now latest : ℕ) where
  expired_lock :
      (trail : Trail)
      → Last is_locking trail
      → AllBefore latest trail
      → latest + max_lock_duration_ns < now
      → now ≤ u64_max
      → get_remaining_lock_duration_ns now trail ≡ none
  expired_lock trail (absent h) old late fits = unlocked_without_locking now trail h
  expired_lock trail (cut before t after e h k) old late fits =
      let begun = AllBefore-cut latest before t after (rw e at old) in
      rw e (get_remaining_lock_duration_ns_lem now before t after h k (omega arith) ∙ ground arith)

-- No lock outlasts its 45 minutes: once every transaction of the trail is older than that, on a
-- 64-bit clock, the state is unlocked, whatever operations failed before they were finalised.
pub check_state_lock_expires :
    (unavailable : Text → Error) (now latest : ℕ) (trail : Trail)
    → AllBefore latest trail
    → latest + max_lock_duration_ns < now
    → now ≤ u64_max
    → check_state_lock unavailable now trail ≡ ok tt
unfolding check_state_lock
check_state_lock_expires unavailable now latest trail old late fits =
    ap (lock_answer unavailable)
      (expired_lock now latest trail (last_match is_locking trail) old late fits)

-- A deposit or withdrawal that begins takes the lock: once a transaction of it that is not final is
-- pushed, with a timestamp 45 minutes or more before the end of 64-bit time, every check until 45
-- minutes later fails with the whole seconds that remain, as long as what is pushed after it is
-- neither a deposit nor a withdrawal.
pub push_locks :
    (unavailable : Text → Error) (now : ℕ) (t : StableTransaction) (trail after : Trail)
    → is_locking t ≡ true
    → t.operation.step.is_final ≡ false
    → fails is_locking after ≡ true
    → t.timestamp_ns + max_lock_duration_ns ≤ u64_max
    → now ≤ t.timestamp_ns + max_lock_duration_ns
    → check_state_lock unavailable now ((push_audit_trail_transaction true t trail).1 ++ after)
      ≡ err (
          unavailable (
            str "Canister state is locked. Please try again in "
            ++ (decimal ((t.timestamp_ns + max_lock_duration_ns - now) / ns_in_second)
                ++ str " seconds."))
          ∷ [])
unfolding check_state_lock push_audit_trail_transaction
push_locks unavailable now t trail after h open_ k fits early =
    let held : get_remaining_lock_duration_ns now (trail ++ t ∷ after)
        ≡ some (t.timestamp_ns + max_lock_duration_ns - now) =
      get_remaining_lock_duration_ns_lem now trail t after h k fits ∙ ground arith in
    rw (append_assoc trail (t ∷ []) after) (ap (lock_answer unavailable) held)

-- Where the operation is a locking one, what does not lock is not of the operation.
is_open-is_locking :
    (op : Operation) (t s : StableTransaction)
    → is_locking t ≡ true
    → is_open op t ≡ true
    → is_locking s ≡ false
    → is_open op s ≡ false
unfolding is_open is_locking_transaction operation_eq
is_open-is_locking op t s h o k = ground arith

fails_open :
    (op : Operation) (t : StableTransaction)
    → is_locking t ≡ true
    → is_open op t ≡ true
    → (after : Trail) → fails is_locking after ≡ true
    → fails (is_open op) after ≡ true
fails_open op t h o [] k = refl
fails_open op t h o (s ∷ after) k =
    ground (arith, is_open-is_locking op t s h o, fails_open op t h o after)

-- Where the last deposit or withdrawal of a trail of fewer than 2 ^ 64 transactions is an open one
-- of an operation, finalising this operation releases the lock at once, for timestamps that are 45
-- minutes or more before the end of 64-bit time.
pub finalize_unlocks :
    (unavailable : Text → Error) (now : ℕ) (op : Operation) (before : Trail) (t : StableTransaction)
    (after : Trail)
    → is_locking t ≡ true
    → is_open op t ≡ true
    → fails is_locking after ≡ true
    → t.timestamp_ns + max_lock_duration_ns ≤ u64_max
    → length (before ++ t ∷ after) ≤ u64_max
    → check_state_lock unavailable now (finalize_audit_trail_transaction op (before ++ t ∷ after))
      ≡ ok tt
unfolding check_state_lock is_locking_transaction
finalize_unlocks unavailable now op before t after h o k fits size =
    let k' = fails_open op t h o after k in
    rw (finalize-cut op before t after o k' size) (
      ap (lock_answer unavailable)
        (get_remaining_lock_duration_ns_lem now before (finalized t) after h k fits))
