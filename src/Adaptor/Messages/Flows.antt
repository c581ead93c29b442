-- ===== src/Adaptor/Messages/Flows.antt =====
-- The books under the messages, as runs of the updates that each operation permits.
use sns_kongswap_adaptor.Base.{◌≡◌, ◌≤◌, refl, Bool, List}
use sns_kongswap_adaptor.Sns.{Principal, Account, Operation, DepositRequest}
use sns_kongswap_adaptor.Balances.{ValidatedBalances}
use sns_kongswap_adaptor.Balances.Bounds.{Update, apply}
use sns_kongswap_adaptor.Balances.Flows.{
  Permits, Runs, still, next, AnyOperation, Deposits, Withdrawals,
}
use sns_kongswap_adaptor.Balances.Flows.Rises.{Rises, BalancesRise, Runs-BalancesRise}
use sns_kongswap_adaptor.Balances.Flows.Dex.{Deposits-Rises, Withdrawals-Falls}
use sns_kongswap_adaptor.Adaptor.Manager.{deposit_endpoint}
use sns_kongswap_adaptor.Adaptor.Withdraw.{withdraw_impl}
use sns_kongswap_adaptor.Adaptor.Invariant.Manager.{deposit_endpoint-Keeps}
use sns_kongswap_adaptor.Adaptor.Invariant.Withdraw.{withdraw_impl-Keeps}
use sns_kongswap_adaptor.Machine.{
  Env, Machine, Canister, ConfigState, initialized, uninitialized, map_balances,
}
use sns_kongswap_adaptor.Machine.Keeps.{IsReadable}
use sns_kongswap_adaptor.Machine.Emit.Invariant.{emit_transaction-Keeps}
use sns_kongswap_adaptor.Adaptor.Invariant.{IsInvariant}
use sns_kongswap_adaptor.Adaptor.Messages.{Message, process_all, process_all-Holds}

-- The canister is initialized, and a run leads from `b` to its balances.
abbrev pub IsRun : (Operation → Type 0) → ValidatedBalances → ConfigState → Type 0
IsRun O b uninitialized = ⊥
IsRun O b (initialized b') = Runs O b b'

abbrev pub HasRun : (Operation → Type 0) → ValidatedBalances → Canister → Type 0
HasRun O b c = IsRun O b c.balances

-- The messages that run while a call is awaited make such updates only.
abbrev pub OthersRun : {W : Type 0} → Env W → (Operation → Type 0) → ValidatedBalances → Type 0
OthersRun {W} env O b = (w : W) (c : Canister) → HasRun O b c → HasRun O b (env.others w c)

module _ (O : Operation → Type 0) (b : ValidatedBalances) where
  update-IsRun :
      {op : Operation} (u : Update) (s : ConfigState)
      → O op
      → Permits op u
      → IsRun O b s
      → IsRun O b (map_balances (apply u) s)
  update-IsRun u uninitialized o p h = h
  update-IsRun u (initialized b') o p h = next h o p

  IsRun-IsReadable : (s : ConfigState) → IsRun O b s → IsReadable Unit s
  IsRun-IsReadable uninitialized h = elim h [ ]
  IsRun-IsReadable (initialized b') h = tt

  pub run-IsInvariant :
      {W : Type 0} {env : Env W} {op : Operation}
      → O op
      → OthersRun env O b
      → IsInvariant env Unit (Permits op) (HasRun O b)
  run-IsInvariant o others = record {
    admitted = tt;
    emit = emit_transaction-Keeps Unit tt (record {
      others = others;
      appending = λ t c h. h;
      recording = λ w t result c h. others w _ h;
    });
    update = λ u p c h. update-IsRun u c.balances o p h;
    finalize = λ op c h. h;
    read = λ c h. IsRun-IsReadable c.balances h;
  }

pub the_run :
    {O : Operation → Type 0} {b : ValidatedBalances} (s : ConfigState)
    → IsRun O b s
    → (b' : ValidatedBalances) × (s ≡ initialized b') × Runs O b b'
the_run uninitialized h = elim h [ ]
the_run (initialized b') h = (b', refl, h)

-- From a canister that is initialized, also in its committed state, with the same balances `b`:
-- whatever messages arrive and whatever is answered to their calls, errors and traps included, the
-- canister stays initialized, and its balances come from `b` by a run of updates, each of which is
-- permitted to one of the four operations; so what is booked as returned to the owner, the fees and
-- the suspense of both books, where they are 64-bit numbers, never fall, and stay 64-bit numbers. The
-- messages that run during the calls are to keep to such runs too.
pub process_all-Runs :
    {W : Type 0} (env : Env W) (is_controller : Principal → Bool) (messages : List Message)
    (m : Machine W) (b : ValidatedBalances)
    → OthersRun env AnyOperation b
    → m.canister.balances ≡ initialized b
    → m.committed.balances ≡ initialized b
    → (b' : ValidatedBalances) × ((process_all env is_controller messages m).canister.balances
        ≡ initialized b')
      × Runs AnyOperation b b'
      × BalancesRise b b'
process_all-Runs env f messages m b others h k =
    let run =
      (process_all-Holds (λ op. run-IsInvariant AnyOperation b tt others) f messages m
        (rw h still, rw k still)).0 in
    let (b', e, r) = the_run (process_all env f messages m).canister.balances run in
    (b', e, r, Runs-BalancesRise r)

-- However a deposit ends, by an answer, an error or a trap, on a canister that is initialized with
-- `b`, also in its committed state: its balances come from `b` by a run of updates that a deposit is
-- permitted, and what either book says that the DEX holds, where it is a 64-bit number, has not
-- fallen. The messages that run during the calls are to keep to such runs too.
pub deposit_endpoint-Runs :
    {W : Type 0} (env : Env W) (is_controller : Principal → Bool) (caller : Principal)
    (request : DepositRequest) (m : Machine W) (b : ValidatedBalances)
    → OthersRun env Deposits b
    → m.canister.balances ≡ initialized b
    → m.committed.balances ≡ initialized b
    → (b' : ValidatedBalances) × ((deposit_endpoint env is_controller caller request
          m).1.canister.balances
        ≡ initialized b')
      × Runs Deposits b b'
      × Rises b.asset_0_balance.external b'.asset_0_balance.external
      × Rises b.asset_1_balance.external b'.asset_1_balance.external
deposit_endpoint-Runs env f caller request m b others h k =
    let inv = run-IsInvariant Deposits b tt others in
    let run = ((deposit_endpoint-Keeps inv tt f caller request).at m (rw h still, rw k still)).0 in
    let (b', e, r) = the_run (deposit_endpoint env f caller request m).1.canister.balances run in
    let (first, second) = Deposits-Rises r in (b', e, r, first, second)

-- However `withdraw_impl`, the part of a withdrawal after its refresh of the balances, ends on a
-- canister that is initialized with `b`, also in its committed state: its balances come from `b` by a
-- run of updates that a withdrawal is permitted, and what either book says that the DEX holds has not
-- risen. The messages that run during the calls are to keep to such runs too.
pub withdraw_impl-Runs :
    {W : Type 0} (env : Env W) (account_0 account_1 : Account) (m : Machine W)
    (b : ValidatedBalances)
    → OthersRun env Withdrawals b
    → m.canister.balances ≡ initialized b
    → m.committed.balances ≡ initialized b
    → (b' : ValidatedBalances) × ((withdraw_impl env account_0 account_1 m).1.canister.balances
        ≡ initialized b')
      × Runs Withdrawals b b'
      × (b'.asset_0_balance.external ≤ b.asset_0_balance.external)
      × (b'.asset_1_balance.external ≤ b.asset_1_balance.external)
withdraw_impl-Runs env a0 a1 m b others h k =
    let inv = run-IsInvariant Withdrawals b tt others in
    let run = ((withdraw_impl-Keeps inv tt a0 a1).at m (rw h still, rw k still)).0 in
    let (b', e, r) = the_run (withdraw_impl env a0 a1 m).1.canister.balances run in
    let (first, second) = Withdrawals-Falls r in (b', e, r, first, second)
