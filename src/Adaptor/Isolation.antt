-- ===== src/Adaptor/Isolation.antt =====
-- When the methods of the adaptor do the same, whether or not other messages run during their calls:
-- one lemma for each method of a deposit and of a withdrawal.
pub mod Ledgers
pub mod Deposit
pub mod Withdraw
pub mod Handlers
pub mod Books
use sns_kongswap_adaptor.Base.{ℕ, ◌≡◌, refl, true, false, Bool}
use sns_kongswap_adaptor.Base.Text.{Text}
use sns_kongswap_adaptor.Base.Result.{Result, ok, err}
use sns_kongswap_adaptor.Sns.{Principal, TreasuryManagerOperation}
use sns_kongswap_adaptor.AuditTrail.{is_locking_transaction}
use sns_kongswap_adaptor.Validation.Asset.{ValidatedAsset}
use sns_kongswap_adaptor.Balances.{Party}
use sns_kongswap_adaptor.Agent.{Request}
use sns_kongswap_adaptor.Machine.{Env, Canister, now}
use sns_kongswap_adaptor.Machine.Emit.{emit_transaction}
use sns_kongswap_adaptor.Machine.Agrees.{
  Agrees, pure-Agrees, bind-Agrees, trap-Agrees, with_balances_mut-Agrees, agreement_rules,
}
use sns_kongswap_adaptor.Adaptor.State.{
  assets, charge_fee, get_asset_for_ledger, move_asset, add_manager_balance, find_discrepency,
  unwrap,
}

-- Other messages during the calls.
abbrev pub with_others : {W : Type 0} → Env W → (W → Canister → Canister) → Env W
with_others env others = record env { others = others }

-- The calls of deposits and withdrawals do not depend on them.
pub record IsIsolated {W : Type 0} (env : Env W) (others : W → Canister → Canister) : Type 0 where
  pub emit :
      (op : TreasuryManagerOperation) (p : Principal) (r : Request) (purpose : Text)
      → is_locking_transaction op ≡ true
      → op.step.is_final ≡ false
      → Agrees
          (emit_transaction (with_others env others) op p r purpose)
          (emit_transaction env op p r purpose)

module _ {W E : Type 0} where
  pub now-Agrees :
      (env : Env W) (others : W → Canister → Canister)
      → Agrees (now {E = E} (with_others env others)) (now env)
  unfolding now
  now-Agrees env others = record { same = λ m h. refl; stays = λ m h. h }

  pub assets-Agrees : Agrees (assets {W = W} {E = E}) assets
  unfolding assets
  assets-Agrees = search agreement_rules depth 8

  pub get_asset_for_ledger-Agrees :
      (t : Text) → Agrees (get_asset_for_ledger {W = W} {E = E} t) (get_asset_for_ledger t)
  unfolding get_asset_for_ledger
  get_asset_for_ledger-Agrees t = search (agreement_rules, assets-Agrees) depth 8

  pub charge_fee-Agrees :
      (a : ValidatedAsset) → Agrees (charge_fee {W = W} {E = E} a) (charge_fee a)
  unfolding charge_fee
  charge_fee-Agrees a = with_balances_mut-Agrees _

  pub move_asset-Agrees :
      (a : ValidatedAsset) (n : ℕ) (from to : Party)
      → Agrees (move_asset {W = W} {E = E} a n from to) (move_asset a n from to)
  unfolding move_asset
  move_asset-Agrees a n from to = with_balances_mut-Agrees _

  pub add_manager_balance-Agrees :
      (a : ValidatedAsset) (n : ℕ)
      → Agrees (add_manager_balance {W = W} {E = E} a n) (add_manager_balance a n)
  unfolding add_manager_balance
  add_manager_balance-Agrees a n = with_balances_mut-Agrees _

  pub find_discrepency-Agrees :
      (a : ValidatedAsset) (x y z : ℕ) (d : Bool)
      → Agrees (find_discrepency {W = W} {E = E} a x y z d) (find_discrepency a x y z d)
  unfolding find_discrepency
  find_discrepency-Agrees a x y z d = with_balances_mut-Agrees _

module _ {W E A F : Type 0} where
  pub unwrap-Agrees : (r : Result A F) → Agrees (unwrap {W = W} {E = E} r) (unwrap r)
  unfolding unwrap
  unwrap-Agrees (ok a) = pure-Agrees a
  unwrap-Agrees (err e) = trap-Agrees

-- The rules for the actions that make no call.
pub ruleset silent_rules = (
  agreement_rules, now-Agrees, assets-Agrees, get_asset_for_ledger-Agrees, charge_fee-Agrees,
  move_asset-Agrees, add_manager_balance-Agrees, find_discrepency-Agrees, unwrap-Agrees,
)
