-- ===== src/Adaptor/Messages/Tasks.antt =====
-- What the periodic tasks change in the balances, which canister.rs says in the comments of
-- `refresh_balances` and `issue_rewards`.
use sns_kongswap_adaptor.Base.{◌≡◌}
use sns_kongswap_adaptor.Sns.{Error}
use sns_kongswap_adaptor.Balances.{ValidatedBalances}
use sns_kongswap_adaptor.Balances.Flows.{still, Observations}
use sns_kongswap_adaptor.Balances.Flows.Tasks.{IsObserved, Runs-IsObserved}
use sns_kongswap_adaptor.Machine.{Env, Machine, initialized}
use sns_kongswap_adaptor.Adaptor.Manager.{refresh_balances}
use sns_kongswap_adaptor.Adaptor.Invariant.Manager.{refresh_balances-Keeps}
use sns_kongswap_adaptor.Adaptor.Messages.Flows.{OthersRun, run-IsInvariant, the_run}

-- However the refresh of the balances ends, on a canister that is initialized with `b`, also in its
-- committed state: its balances are `b` with other amounts at the DEX, and nothing else in them has
-- changed. The messages that run during the calls are to change no more than that too.
pub refresh_balances-IsObserved :
    {W : Type 0} (env : Env W) (m : Machine W) (b : ValidatedBalances)
    → OthersRun env Observations b
    → m.canister.balances ≡ initialized b
    → m.committed.balances ≡ initialized b
    → (b' : ValidatedBalances) × ((refresh_balances {E = Error} env m).1.canister.balances
        ≡ initialized b')
      × IsObserved b b'
refresh_balances-IsObserved env m b others h k =
    let inv = run-IsInvariant Observations b tt others in
    let run = ((refresh_balances-Keeps {E = Error} inv).at m (rw h still, rw k still)).0 in
    let (b', e, r) = the_run (refresh_balances {E = Error} env m).1.canister.balances run in
    (b', e, Runs-IsObserved r)
