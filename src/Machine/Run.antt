-- ===== src/Machine/Run.antt =====
-- Actions on a machine: they return a value, fail with an error, or trap.
use sns_kongswap_adaptor.Base.{ℕ}
use sns_kongswap_adaptor.Base.Text.{Text}
use sns_kongswap_adaptor.Base.Result.{Result, ok, err}
use sns_kongswap_adaptor.Sns.{Principal, Operation, TreasuryManagerOperation}
use sns_kongswap_adaptor.Context
use sns_kongswap_adaptor.Balances.{ValidatedBalances}
use sns_kongswap_adaptor.Agent.{Request, Response}
use sns_kongswap_adaptor.Machine.State.{
  Canister, ConfigState, initialized, uninitialized, Env, Machine,
}

pub data Flow (A E : Type 0) : Type 0 where
  done : A → Flow A E
  fail : E → Flow A E
  trapped : Flow A E

abbrev pub Action : Type 0 → Type 0 → Type 0 → Type 0
Action W A E = Machine W → Flow A E × Machine W

module _ {A B E : Type 0} where
  abbrev pub recast : (E → B) → Flow A E → Flow A B
  recast f (done a) = done a
  recast f (fail e) = fail (f e)
  recast f trapped = trapped

  abbrev pub settled : Flow A E → Flow (Result A E) B
  settled (done a) = done (ok a)
  settled (fail e) = done (err e)
  settled trapped = trapped

-- `with_balances_mut`: nothing happens before the canister is initialized.
abbrev pub map_balances : (ValidatedBalances → ValidatedBalances) → ConfigState → ConfigState
map_balances f uninitialized = uninitialized
map_balances f (initialized b) = initialized (f b)

module _ {W A E : Type 0} where
  unfoldable pub pure : A → Action W A E
  pure a m = (done a, m)

  -- `return Err(e)`.
  unfoldable pub throw : E → Action W A E
  throw e m = (fail e, m)

  -- A trap gives up what was changed since the last commit.
  unfoldable pub trap : Action W A E
  trap m = (trapped, record m { canister = m.committed })

  unfoldable pub lift : Result A E → Action W A E
  lift (ok a) m = (done a, m)
  lift (err e) m = (fail e, m)

module _ {W A B E : Type 0} where
  abbrev pub continue : Flow A E → (A → Action W B E) → Action W B E
  continue (done a) f m = f a m
  continue (fail e) f m = (fail e, m)
  continue trapped f m = (trapped, m)

  infixl 5 ◌>>=◌ ◌>>◌
  -- `?`; opening this opens the basic actions too.
  unfoldable pub ◌>>=◌ : Action W A E → (A → Action W B E) → Action W B E
  unfolding pure throw trap lift
  ◌>>=◌ x f m = let (r, m') = x m in continue r f m'

  abbrev pub ◌>>◌ : Action W A E → Action W B E → Action W B E
  x >> y = x >>= λ _. y

  unfoldable pub map_fail : (E → B) → Action W A E → Action W A B
  map_fail f x m = let (r, m') = x m in (recast f r, m')

  -- A result that is looked at instead of being propagated.
  unfoldable pub attempt : Action W A E → Action W (Result A E) B
  unfolding map_fail
  attempt x m = let (r, m') = x m in (settled r, m')

module _ {W E : Type 0} (env : Env W) where
  unfoldable pub now : Action W ℕ E
  now m = (done (env.time_ns m.world), m)

  -- A call commits, waits, and finds what other messages have committed meanwhile.
  unfoldable pub agent_call : Principal → (r : Request) → Action W (Result (Response r) Text) E
  agent_call canister_id r m =
      let (answer, world) = env.call canister_id r m.world in
      let canister = env.others world m.canister in
      (done answer, record m { canister = canister; committed = canister; world = world })

module _ {W E : Type 0} where
  unfoldable pub get_canister : Action W Canister E
  get_canister m = (done m.canister, m)

  unfoldable pub modify : (Canister → Canister) → Action W (Unit {0}) E
  modify f m = (done tt, record m { canister = f m.canister })

  unfoldable pub with_balances_mut : (ValidatedBalances → ValidatedBalances) → Action W (Unit {0}) E
  unfolding modify
  with_balances_mut f = modify (λ c. record c { balances = map_balances f c.balances })

  abbrev pub cached : ConfigState → Action W ValidatedBalances E
  cached uninitialized = trap
  cached (initialized b) = pure b

  unfoldable pub get_cached_balances : Action W ValidatedBalances E
  unfolding get_canister pure trap
  get_cached_balances m = cached m.canister.balances m

  -- A handler makes its context, and each step takes the next operation of it.
  unfoldable pub set_context : Operation → Action W (Unit {0}) E
  set_context operation m = (done tt, record m { context = Context.new operation })

  unfoldable pub next_operation : Action W TreasuryManagerOperation E
  next_operation m =
      let (operation, context) = Context.next_operation m.context in
      (done operation, record m { context = context })
