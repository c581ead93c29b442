-- ===== src/Machine/Keeps.antt =====
-- Invariants of the canister's state under actions, one rule for each way to build an action. The
-- invariant holds of the running state and of the committed one, so that it survives a trap.
use sns_kongswap_adaptor.Base.{Bool, true, false, if◌then◌else◌}
use sns_kongswap_adaptor.Base.Result.{Result, ok, err}
use sns_kongswap_adaptor.Sns.{Operation}
use sns_kongswap_adaptor.Machine.State.{
  ConfigState, Canister, Env, Machine, uninitialized, initialized,
}
use sns_kongswap_adaptor.Machine.Run.{
  Flow, done, fail, trapped, Action, continue, cached, recast, settled, pure, throw, trap, lift,
  ◌>>=◌, map_fail, attempt, now, get_canister, modify, get_cached_balances, set_context,
  next_operation,
}

abbrev pub Holds : {W : Type 0} → (Canister → Type 0) → Machine W → Type 0
Holds P m = P m.canister × P m.committed

-- The ends of an action that are admitted, where `T` says that it may trap.
abbrev pub Ends : {A E : Type 0} → Type 0 → Flow A E → Type 0
Ends T (done a) = Unit
Ends T (fail e) = Unit
Ends T trapped = T

-- However the action ends, by a value, an error or a trap, it keeps the invariant; and it traps only
-- where `T` admits it.
pub record Keeps {W A E : Type 0} (T : Type 0) (P : Canister → Type 0) (x : Action W A E)
    : Type 0 where
  pub at : (m : Machine W) → Holds P m → Holds P (x m).1
  pub ends : (m : Machine W) → Holds P m → Ends T (x m).0

-- The balances can be read, or a trap is admitted.
abbrev pub IsReadable : Type 0 → ConfigState → Type 0
IsReadable T uninitialized = T
IsReadable T (initialized b) = Unit

pub Unit-IsReadable : (s : ConfigState) → IsReadable Unit s
Unit-IsReadable uninitialized = tt
Unit-IsReadable (initialized b) = tt

module _ {W A E : Type 0} {T : Type 0} {P : Canister → Type 0} where
  pub pure-Keeps : (a : A) → Keeps T P (pure {W = W} {A = A} {E = E} a)
  unfolding pure
  pure-Keeps a = record { at = λ m h. h; ends = λ m h. tt }

  pub throw-Keeps : (e : E) → Keeps T P (throw {W = W} {A = A} {E = E} e)
  unfolding throw
  throw-Keeps e = record { at = λ m h. h; ends = λ m h. tt }

  pub trap-Keeps : T → Keeps T P (trap {W = W} {A = A} {E = E})
  unfolding trap
  trap-Keeps t = record { at = λ m h. (h.1, h.1); ends = λ m h. t }

  pub lift-Keeps : (r : Result A E) → Keeps T P (lift {W = W} r)
  unfolding lift
  lift-Keeps (ok a) = record { at = λ m h. h; ends = λ m h. tt }
  lift-Keeps (err e) = record { at = λ m h. h; ends = λ m h. tt }

  pub if-Keeps :
      (b : Bool) (x y : Action W A E) → Keeps T P x → Keeps T P y → Keeps T P (if b then x else y)
  if-Keeps true x y hx hy = hx
  if-Keeps false x y hx hy = hy

module _ {A E : Type 0} (T : Type 0) where
  recast-Ends : {B : Type 0} (f : E → B) (r : Flow A E) → Ends T r → Ends T (recast f r)
  recast-Ends f (done a) h = h
  recast-Ends f (fail e) h = h
  recast-Ends f trapped h = h

  settled-Ends : (B : Type 0) (r : Flow A E) → Ends T r → Ends T (settled {B = B} r)
  settled-Ends B (done a) h = h
  settled-Ends B (fail e) h = h
  settled-Ends B trapped h = h

module _ {W A B E : Type 0} {T : Type 0} {P : Canister → Type 0} where
  continue-Keeps :
      (r : Flow A E) (f : A → Action W B E) (m : Machine W)
      → ((a : A) → Keeps T P (f a))
      → Ends T r
      → Holds P m
      → Holds P (continue r f m).1 × Ends T (continue r f m).0
  continue-Keeps (done a) f m k e h = ((k a).at m h, (k a).ends m h)
  continue-Keeps (fail x) f m k e h = (h, tt)
  continue-Keeps trapped f m k e h = (h, e)

  pub bind-Keeps :
      {x : Action W A E} {f : A → Action W B E}
      → Keeps T P x
      → ((a : A) → Keeps T P (f a))
      → Keeps T P (x >>= f)
  unfolding ◌>>=◌
  bind-Keeps {x} {f} kx kf = record {
    at = λ m h. (continue-Keeps (x m).0 f (x m).1 kf (kx.ends m h) (kx.at m h)).0;
    ends = λ m h. (continue-Keeps (x m).0 f (x m).1 kf (kx.ends m h) (kx.at m h)).1;
  }

  pub map_fail-Keeps : (f : E → B) {x : Action W A E} → Keeps T P x → Keeps T P (map_fail f x)
  unfolding map_fail
  map_fail-Keeps f {x} k = record { at = k.at; ends = λ m h. recast-Ends T f (x m).0 (k.ends m h) }

  pub attempt-Keeps : {x : Action W A E} → Keeps T P x → Keeps T P (attempt {B = B} x)
  unfolding attempt
  attempt-Keeps {x} k = record { at = k.at; ends = λ m h. settled-Ends T B (x m).0 (k.ends m h) }

module _ {W E : Type 0} {T : Type 0} {P : Canister → Type 0} where
  pub now-Keeps : (env : Env W) → Keeps T P (now {E = E} env)
  unfolding now
  now-Keeps env = record { at = λ m h. h; ends = λ m h. tt }

  pub get_canister-Keeps : Keeps T P (get_canister {W = W} {E = E})
  unfolding get_canister
  get_canister-Keeps = record { at = λ m h. h; ends = λ m h. tt }

  pub set_context-Keeps : (op : Operation) → Keeps T P (set_context {W = W} {E = E} op)
  unfolding set_context
  set_context-Keeps op = record { at = λ m h. h; ends = λ m h. tt }

  pub next_operation-Keeps : Keeps T P (next_operation {W = W} {E = E})
  unfolding next_operation
  next_operation-Keeps = record { at = λ m h. h; ends = λ m h. tt }

  pub modify-Keeps :
      (f : Canister → Canister)
      → ((c : Canister) → P c → P (f c))
      → Keeps T P (modify {W = W} {E = E} f)
  unfolding modify
  modify-Keeps f k = record { at = λ m h. (k m.canister h.0, h.1); ends = λ m h. tt }

  pub get_cached_balances-Keeps :
      ((c : Canister) → P c → IsReadable T c.balances)
      → Keeps T P (get_cached_balances {W = W} {E = E})
  unfolding get_cached_balances
  get_cached_balances-Keeps read = record {
    at = λ m h. (cached-Holds m.canister.balances m h (read m.canister h.0)).0;
    ends = λ m h. (cached-Holds m.canister.balances m h (read m.canister h.0)).1;
  }
    where
      cached-Holds :
          (s : ConfigState) (m : Machine W)
          → Holds P m
          → IsReadable T s
          → let r = cached {W = W} {E = E} s m in Holds P r.1 × Ends T r.0
      cached-Holds uninitialized m h t = ((h.1, h.1), t)
      cached-Holds (initialized b) m h t = (h, tt)

-- The rules for actions that leave the state alone, and for the ways to build one action of others.
pub ruleset action_rules = (
  pure-Keeps, throw-Keeps, lift-Keeps, if-Keeps, bind-Keeps, map_fail-Keeps, attempt-Keeps,
  now-Keeps, get_canister-Keeps, set_context-Keeps, next_operation-Keeps,
)
