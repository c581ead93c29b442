-- ===== src/Adaptor/Entry.antt =====
-- canister.rs, what surrounds the update methods: the installation and the upgrade, the deposit that
-- the canister sends itself after its installation, the queries, the commit, and the inspection of
-- messages from outside. The timers, which start the periodic tasks and `init_async`, are the
-- platform's.
use sns_kongswap_adaptor.Base.{Bool, ◌||◌, List, [], ◌∷◌, if◌then◌else◌}
use sns_kongswap_adaptor.Base.Text.{Text, str, text_eq}
use sns_kongswap_adaptor.Base.Result.{Result, ok, err}
use sns_kongswap_adaptor.Sns.{
  Principal, Allowance, DepositRequest, Transaction, TreasuryManagerArg, init, upgrade,
}
use sns_kongswap_adaptor.Validation.Allowance.{allowance_from}
use sns_kongswap_adaptor.AuditTrail.{get_audit_trail}
use sns_kongswap_adaptor.Agent.Requests.Own.{TreasuryManagerResult}
use sns_kongswap_adaptor.Machine.{Env, Action, ◌>>=◌, pure, trap, get_canister}
use sns_kongswap_adaptor.Adaptor.Manager.{canister_init, check_access, run_periodic_tasks}

module _ {W E : Type 0} (env : Env W) where
  -- `#[init]`: the two allowances go to `init_async`.
  unfoldable pub install : TreasuryManagerArg → Action W (Allowance × Allowance) E
  install (init arg) = do
    validated ← canister_init env arg
    pure (allowance_from validated.allowance_0, allowance_from validated.allowance_1)
  install upgrade = trap

  -- `#[post_upgrade]`: the state is in stable memory.
  unfoldable pub post_upgrade : TreasuryManagerArg → Action W (Unit {0}) E
  post_upgrade (init arg) = trap
  post_upgrade upgrade = pure tt

  -- The query `audit_trail`.
  unfoldable pub audit_trail : Action W (List Transaction) E
  audit_trail = do canister ← get_canister; pure (get_audit_trail canister.audit_trail)

  -- `commit_state`: the call itself commits.
  unfoldable pub commit_state : (Principal → Bool) → Principal → Action W (Unit {0}) E
  commit_state is_controller caller = check_access env is_controller caller

  -- A message that is not accepted is a trap before it is executed.
  unfoldable pub inspect_message : (Principal → Bool) → Principal → Text → Action W (Unit {0}) E
  inspect_message is_controller caller method_name =
      if text_eq (str "balances") method_name || text_eq (str "audit_trail") method_name
      then pure tt
      else check_access env is_controller caller

  -- What follows the answer to the deposit: a call that has failed, a reply that cannot be decoded, a
  -- deposit that has failed, each of which is logged; or the balances.
  unfoldable pub after_deposit :
      Result (Result TreasuryManagerResult Text) Text → Action W (Unit {0}) E
  after_deposit (ok (ok (ok balances))) = run_periodic_tasks env
  after_deposit (ok (ok (err errors))) = pure tt
  after_deposit (ok (err decoding)) = pure tt
  after_deposit (err call_failed) = pure tt

  -- The call of the canister's own `deposit` is the platform's.
  unfoldable pub init_async :
      (DepositRequest → Action W (Result (Result TreasuryManagerResult Text) Text) E)
      → Allowance × Allowance
      → Action W (Unit {0}) E
  init_async call_deposit (allowance_0, allowance_1) = do
    answer ← call_deposit (record { allowances = allowance_0 ∷ allowance_1 ∷ [] })
    after_deposit answer
