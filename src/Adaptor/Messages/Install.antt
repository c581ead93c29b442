-- ===== src/Adaptor/Messages/Install.antt =====
-- From the installation on.
use sns_kongswap_adaptor.Base.{◌≡◌, Bool, List, none, ◌++◌}
use sns_kongswap_adaptor.Base.Text.{str}
use sns_kongswap_adaptor.Base.Result.{ok}
use sns_kongswap_adaptor.Sns.{Principal, Error, TreasuryManagerInit}
use sns_kongswap_adaptor.Validation.Allowance.{ValidatedDepositRequest, try_from_init}
use sns_kongswap_adaptor.Balances.{ValidatedBalances, new}
use sns_kongswap_adaptor.Balances.Frame.{SameFrame-refl}
use sns_kongswap_adaptor.Machine.{Env, Machine, ◌>>=◌, now, modify}
use sns_kongswap_adaptor.Adaptor.State.{unwrap}
use sns_kongswap_adaptor.Adaptor.Manager.{canister_init, initialize}
use sns_kongswap_adaptor.Adaptor.Messages.{Message, commit, process_all, process_all-Holds}
use sns_kongswap_adaptor.Adaptor.Messages.Frame.{HasFrame, OthersKeepFrame, frame-IsInvariant}

-- The balances that the installation is to set up.
abbrev pub installed_balances :
    {W : Type 0} → Env W → W → ValidatedDepositRequest → ValidatedBalances
installed_balances env w v =
    new (env.time_ns w) v.allowance_0.asset v.allowance_1.asset (str "DAO Treasury")
      v.allowance_0.owner_account v.allowance_1.owner_account
      (str "KongSwapAdaptor(" ++ (env.id.text ++ str ")"))
      (record { owner = env.id; subaccount = none }) (record { owner = env.id; subaccount = none })

-- An installation whose argument validates, followed by whatever messages, leaves the canister
-- initialized with the two ledgers of the argument, with its two accounts as those of the treasury
-- owner, with the canister's own main account as that of the treasury manager, and with spendings and
-- earnings of 0, as long as the messages that run during the calls keep these too.
pub process_all-canister_init :
    {W : Type 0} (env : Env W) (is_controller : Principal → Bool) (init : TreasuryManagerInit)
    (v : ValidatedDepositRequest) (messages : List Message) (m : Machine W)
    → try_from_init env.display env.icp_ledger_canister_id init ≡ ok v
    → OthersKeepFrame env (installed_balances env m.world v)
    → HasFrame
        (installed_balances env m.world v)
        (process_all env is_controller messages
          (commit (canister_init {E = Error} env init) m)).canister
unfolding canister_init initialize unwrap ◌>>=◌ now modify
process_all-canister_init env f init v messages m h others =
    let b = installed_balances env m.world v in
    (process_all-Holds (frame-IsInvariant b others) f messages
      (commit (canister_init {E = Error} env init) m) (rw h (SameFrame-refl b, SameFrame-refl b))).0
