-- ===== src/Adaptor/Messages.antt =====
-- canister.rs, what changes the state once the canister is installed: the two update methods and the
-- periodic tasks. A message ends with a commit, unless it traps.
pub mod Flows
pub mod Tasks
pub mod Exclusive
pub mod Concurrent
pub mod Frame
pub mod Append
pub mod Install
use sns_kongswap_adaptor.Base.{Bool, List, [], ◌∷◌}
use sns_kongswap_adaptor.Sns.{Principal, Error, Operation, DepositRequest, WithdrawRequest}
use sns_kongswap_adaptor.Machine.{Env, Machine, Canister, Action, Flow, done, fail, trapped}
use sns_kongswap_adaptor.Machine.Keeps.{Keeps, Holds}
use sns_kongswap_adaptor.Adaptor.Manager.{deposit_endpoint, withdraw_endpoint, run_periodic_tasks}
use sns_kongswap_adaptor.Adaptor.Invariant.Manager.{
  IsInvariantOfAll, deposit_endpoint-Keeps, withdraw_endpoint-Keeps, run_periodic_tasks-Keeps,
}

pub data Message : Type 0 where
  deposit : (caller : Principal) → DepositRequest → Message
  withdraw : (caller : Principal) → WithdrawRequest → Message
  periodic_tasks : Message

-- A trap has left the committed state already.
abbrev pub commit : {W A E : Type 0} → Action W A E → Machine W → Machine W
commit x m = let after = (x m).1 in record after { committed = after.canister }

module _ {W : Type 0} (env : Env W) (is_controller : Principal → Bool) where
  unfoldable pub process : Message → Machine W → Machine W
  process (Message.deposit caller request) =
      commit (deposit_endpoint env is_controller caller request)
  process (Message.withdraw caller request) =
      commit (withdraw_endpoint env is_controller caller request)
  process Message.periodic_tasks = commit (run_periodic_tasks {E = Error} env)

  unfoldable pub process_all : List Message → Machine W → Machine W
  process_all [] m = m
  process_all (message ∷ messages) m = process_all messages (process message m)

pub commit-Holds :
    {W A E : Type 0} {P : Canister → Type 0} (x : Action W A E) (m : Machine W)
    → Keeps Unit P x
    → Holds P m
    → Holds P (commit x m)
commit-Holds x m k h = let (now, before) = k.at m h in (now, now)

module _ {W : Type 0} {env : Env W} {P : Canister → Type 0}
    (inv : IsInvariantOfAll env Unit P) where
  process-Holds :
      (f : Principal → Bool) (message : Message) (m : Machine W)
      → Holds P m
      → Holds P (process env f message m)
  unfolding process
  process-Holds f (Message.deposit p r) m =
      commit-Holds (deposit_endpoint env f p r) m
        (deposit_endpoint-Keeps (inv Operation.deposit) tt f p r)
  process-Holds f (Message.withdraw p r) m =
      commit-Holds (withdraw_endpoint env f p r) m (withdraw_endpoint-Keeps inv tt f p r)
  process-Holds f Message.periodic_tasks m =
      commit-Holds (run_periodic_tasks {E = Error} env) m (run_periodic_tasks-Keeps inv)

  pub process_all-Holds :
      (f : Principal → Bool) (messages : List Message) (m : Machine W)
      → Holds P m
      → Holds P (process_all env f messages m)
  unfolding process_all
  process_all-Holds f [] m h = h
  process_all-Holds f (message ∷ messages) m h =
      process_all-Holds f messages (process env f message m) (process-Holds f message m h)
