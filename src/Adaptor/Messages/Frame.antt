-- ===== src/Adaptor/Messages/Frame.antt =====
-- What the messages never change in the balances.
use sns_kongswap_adaptor.Base.{◌≡◌, Bool, List}
use sns_kongswap_adaptor.Sns.{Principal}
use sns_kongswap_adaptor.Balances.{ValidatedBalances}
use sns_kongswap_adaptor.Balances.Bounds.{Update, apply}
use sns_kongswap_adaptor.Balances.Frame.{
  SameFrame, SameFrame-refl, SameFrame-trans, apply-SameFrame,
}
use sns_kongswap_adaptor.Machine.{
  Env, Machine, Canister, ConfigState, initialized, uninitialized, map_balances,
}
use sns_kongswap_adaptor.Machine.Emit.Invariant.{emit_transaction-Keeps}
use sns_kongswap_adaptor.Adaptor.Invariant.Manager.{IsInvariantOfAll}
use sns_kongswap_adaptor.Machine.Keeps.{Unit-IsReadable}
use sns_kongswap_adaptor.Adaptor.Messages.{Message, process_all, process_all-Holds}

-- The canister is initialized, and its balances have the frame of `b`.
abbrev pub IsFramed : ValidatedBalances → ConfigState → Type 0
IsFramed b uninitialized = ⊥
IsFramed b (initialized b') = SameFrame b' b

abbrev pub HasFrame : ValidatedBalances → Canister → Type 0
HasFrame b c = IsFramed b c.balances

-- The messages that run while a call is awaited keep the frame.
abbrev pub OthersKeepFrame : {W : Type 0} → Env W → ValidatedBalances → Type 0
OthersKeepFrame {W} env b = (w : W) (c : Canister) → HasFrame b c → HasFrame b (env.others w c)

update-IsFramed :
    (u : Update) (b : ValidatedBalances) (s : ConfigState)
    → IsFramed b s
    → IsFramed b (map_balances (apply u) s)
update-IsFramed u b uninitialized h = h
update-IsFramed u b (initialized b') h = SameFrame-trans (apply-SameFrame u b') h

pub frame-IsInvariant :
    {W : Type 0} {env : Env W} (b : ValidatedBalances)
    → OthersKeepFrame env b
    → IsInvariantOfAll env Unit (HasFrame b)
frame-IsInvariant {env} b others op = record {
  admitted = tt;
  emit = emit_transaction-Keeps Unit tt (record {
    others = others;
    appending = λ t c h. h;
    recording = λ w t result c h. others w _ h;
  });
  update = λ u p c h. update-IsFramed u b c.balances h;
  finalize = λ op c h. h;
  read = λ c h. Unit-IsReadable c.balances;
}

-- From a canister that is initialized, also in its committed state, with the same balances:
-- whatever messages arrive in whatever order, whoever sends them, whatever the ledgers and the DEX
-- answer, whichever call fails and wherever a handler errs or traps, as long as the messages that
-- run during the calls keep it too, the canister stays initialized, and its two ledgers, its
-- timestamp, the accounts and names of the treasury owner and manager, and the spendings and
-- earnings of both books are those it started with.
pub process_all-HasFrame :
    {W : Type 0} (env : Env W) (is_controller : Principal → Bool) (messages : List Message)
    (m : Machine W) (b : ValidatedBalances)
    → OthersKeepFrame env b
    → m.canister.balances ≡ initialized b
    → m.committed.balances ≡ initialized b
    → HasFrame b (process_all env is_controller messages m).canister
process_all-HasFrame env f messages m b others h k =
    (process_all-Holds (frame-IsInvariant b others) f messages m
      (rw h (SameFrame-refl b), rw k (SameFrame-refl b))).0
