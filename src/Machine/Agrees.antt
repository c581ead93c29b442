-- ===== src/Machine/Agrees.antt =====
-- Actions that do the same in two environments, in the course of a deposit or of a withdrawal. One
-- rule for each way to build an action.
use sns_kongswap_adaptor.Base.{◌≡◌, refl, ◌∙◌, ap, ◌⊎◌, inl, inr, Bool, true, false, if◌then◌else◌}
use sns_kongswap_adaptor.Base.Result.{Result, ok, err}
use sns_kongswap_adaptor.Sns.{Operation, operation_eq, TreasuryManagerOperation}
use sns_kongswap_adaptor.Context
use sns_kongswap_adaptor.AuditTrail.{is_locking_transaction}
use sns_kongswap_adaptor.Balances.{ValidatedBalances}
use sns_kongswap_adaptor.Machine.State.{Canister, ConfigState, uninitialized, initialized, Machine}
use sns_kongswap_adaptor.Machine.Run.{
  Flow, done, fail, trapped, Action, continue, cached, recast, settled, pure, throw, trap, lift,
  ◌>>=◌, map_fail, attempt, modify, with_balances_mut, get_cached_balances, next_operation,
}

-- The operations that take the lock.
abbrev pub Locking : Operation → Type 0
Locking op = (op ≡ Operation.deposit) ⊎ (op ≡ Operation.withdraw)

pub Locking-is_locking_transaction :
    (t : TreasuryManagerOperation) → Locking t.operation → is_locking_transaction t ≡ true
unfolding is_locking_transaction operation_eq
Locking-is_locking_transaction t (inl e) = rw e refl
Locking-is_locking_transaction t (inr e) = rw e refl

-- Both actions have the same outcome, and remain in the course of the operation.
pub record Agrees {W A E : Type 0} (x y : Action W A E) : Type 0 where
  pub same : (m : Machine W) → Locking m.context.operation → x m ≡ y m
  pub stays : (m : Machine W) → Locking m.context.operation → Locking (y m).1.context.operation

module _ {W A E : Type 0} where
  pub pure-Agrees : (a : A) → Agrees (pure {W = W} {E = E} a) (pure a)
  unfolding pure
  pure-Agrees a = record { same = λ m h. refl; stays = λ m h. h }

  pub throw-Agrees : (e : E) → Agrees (throw {W = W} {A = A} e) (throw e)
  unfolding throw
  throw-Agrees e = record { same = λ m h. refl; stays = λ m h. h }

  pub trap-Agrees : Agrees (trap {W = W} {A = A} {E = E}) trap
  unfolding trap
  trap-Agrees = record { same = λ m h. refl; stays = λ m h. h }

  pub lift-Agrees : (r : Result A E) → Agrees (lift {W = W} r) (lift r)
  unfolding lift
  lift-Agrees (ok a) = record { same = λ m h. refl; stays = λ m h. h }
  lift-Agrees (err e) = record { same = λ m h. refl; stays = λ m h. h }

  pub if-Agrees :
      (b : Bool) (x y x' y' : Action W A E)
      → Agrees x x'
      → Agrees y y'
      → Agrees (if b then x else y) (if b then x' else y')
  if-Agrees true x y x' y' h k = h
  if-Agrees false x y x' y' h k = k

module _ {W A B E : Type 0} where
  continue-Agrees :
      (r : Flow A E) (f g : A → Action W B E) (m : Machine W)
      → ((a : A) → Agrees (f a) (g a))
      → Locking m.context.operation
      → (continue r f m ≡ continue r g m) × Locking (continue r g m).1.context.operation
  continue-Agrees (done a) f g m k h = ((k a).same m h, (k a).stays m h)
  continue-Agrees (fail e) f g m k h = (refl, h)
  continue-Agrees trapped f g m k h = (refl, h)

  pub bind-Agrees :
      {x y : Action W A E} {f g : A → Action W B E}
      → Agrees x y
      → ((a : A) → Agrees (f a) (g a))
      → Agrees (x >>= f) (y >>= g)
  unfolding ◌>>=◌
  bind-Agrees {x} {y} {f} {g} h k = record {
    same = λ m l.
        ap (λ r. continue r.0 f r.1) (h.same m l)
        ∙ (continue-Agrees (y m).0 f g (y m).1 k (h.stays m l)).0;
    stays = λ m l. (continue-Agrees (y m).0 f g (y m).1 k (h.stays m l)).1;
  }

  pub map_fail-Agrees :
      (f : E → B) {x y : Action W A E} → Agrees x y → Agrees (map_fail f x) (map_fail f y)
  unfolding map_fail
  map_fail-Agrees f h = record {
    same = λ m l. ap (λ r. (recast f r.0, r.1)) (h.same m l);
    stays = h.stays;
  }

  pub attempt-Agrees : {x y : Action W A E} → Agrees x y → Agrees (attempt {B = B} x) (attempt y)
  unfolding attempt
  attempt-Agrees h = record {
    same = λ m l. ap (λ r. (settled r.0, r.1)) (h.same m l);
    stays = h.stays;
  }

module _ {W A E : Type 0} where
  -- The next operation of the context is one that takes the lock, and is not final.
  pub next_operation-Agrees :
      {k k' : TreasuryManagerOperation → Action W A E}
      → ((op : TreasuryManagerOperation)
          → is_locking_transaction op ≡ true
          → op.step.is_final ≡ false
          → Agrees (k op) (k' op))
      → Agrees (next_operation >>= k) (next_operation >>= k')
  unfolding ◌>>=◌ next_operation Context.next_operation
  next_operation-Agrees h = record {
    same = λ m l. (h _ (Locking-is_locking_transaction _ l) refl).same _ l;
    stays = λ m l. (h _ (Locking-is_locking_transaction _ l) refl).stays _ l;
  }

module _ {W E : Type 0} where
  pub modify-Agrees : (f : Canister → Canister) → Agrees (modify {W = W} {E = E} f) (modify f)
  unfolding modify
  modify-Agrees f = record { same = λ m h. refl; stays = λ m h. h }

  pub with_balances_mut-Agrees :
      (f : ValidatedBalances → ValidatedBalances)
      → Agrees (with_balances_mut {W = W} {E = E} f) (with_balances_mut f)
  unfolding with_balances_mut
  with_balances_mut-Agrees f = modify-Agrees _

  pub get_cached_balances-Agrees : Agrees (get_cached_balances {W = W} {E = E}) get_cached_balances
  unfolding get_cached_balances
  get_cached_balances-Agrees = record {
    same = λ m h. refl;
    stays = λ m h. by_state m.canister.balances m h;
  }
    where
      by_state :
          (s : ConfigState) (m : Machine W)
          → Locking m.context.operation
          → Locking (cached {W = W} {E = E} s m).1.context.operation
      by_state uninitialized m h = h
      by_state (initialized b) m h = h

pub ruleset agreement_rules = (
  pure-Agrees, throw-Agrees, lift-Agrees, if-Agrees, bind-Agrees, map_fail-Agrees, attempt-Agrees,
  next_operation-Agrees, with_balances_mut-Agrees, get_cached_balances-Agrees, trap-Agrees,
)
