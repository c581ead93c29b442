-- ===== src/Adaptor/Invariant.antt =====
-- What an invariant of the canister's state has to be kept by, so that every handler keeps it: the
-- calls, with all that other messages do meanwhile; the operations on the balances; the finalisation.
pub mod Ledgers
pub mod Deposit
pub mod Withdraw
pub mod Manager
use sns_kongswap_adaptor.Base.{ℕ, ◌≡◌, refl, Bool, true, false, List, [], ◌∷◌}
use sns_kongswap_adaptor.Base.Text.{Text}
use sns_kongswap_adaptor.Base.Result.{Result, ok, err}
use sns_kongswap_adaptor.Sns.{Principal, Operation, TreasuryManagerOperation}
use sns_kongswap_adaptor.Validation.Asset.{ValidatedAsset}
use sns_kongswap_adaptor.Balances.{ValidatedBalances, Party}
use sns_kongswap_adaptor.Balances.Bounds.{Update, apply}
use sns_kongswap_adaptor.AuditTrail
use sns_kongswap_adaptor.Agent.{Request}
use sns_kongswap_adaptor.Machine.{
  Env, Canister, ConfigState, initialized, uninitialized, map_balances, with_balances_mut, modify,
  get_cached_balances,
}
use sns_kongswap_adaptor.Machine.Emit.{emit_transaction}
use sns_kongswap_adaptor.Machine.Keeps.{
  Keeps, IsReadable, pure-Keeps, trap-Keeps, bind-Keeps, modify-Keeps, get_cached_balances-Keeps,
}
use sns_kongswap_adaptor.Adaptor.State.{
  assets, owner_accounts, ledgers, charge_fee, get_asset_for_ledger, move_asset,
  add_manager_balance, find_discrepency, finalize_audit_trail_transaction, unwrap,
}

abbrev pub updated : Update → Canister → Canister
updated u c = record c { balances = map_balances (apply u) c.balances }

abbrev pub finalized : Operation → Canister → Canister
finalized op c = record c {
  audit_trail = AuditTrail.finalize_audit_trail_transaction op c.audit_trail;
}

-- For the operations on the balances that `A` admits, with traps, which `T` admits.
pub record IsInvariant {W : Type 0} (env : Env W) (T : Type 0) (A : Update → Type 0)
    (P : Canister → Type 0) : Type 0 where
  pub admitted : T
  pub emit :
      (op : TreasuryManagerOperation) (canister_id : Principal) (r : Request) (purpose : Text)
      → Keeps T P (emit_transaction env op canister_id r purpose)
  pub update : (u : Update) → A u → (c : Canister) → P c → P (updated u c)
  pub finalize : (op : Operation) (c : Canister) → P c → P (finalized op c)
  pub read : (c : Canister) → P c → IsReadable T c.balances

module _ {W E : Type 0} {T : Type 0} {P : Canister → Type 0}
    (read : (c : Canister) → P c → IsReadable T c.balances) where
  pub assets-Keeps : Keeps T P (assets {W = W} {E = E})
  unfolding assets
  assets-Keeps = bind-Keeps (get_cached_balances-Keeps read) (λ b. pure-Keeps _)

  pub owner_accounts-Keeps : Keeps T P (owner_accounts {W = W} {E = E})
  unfolding owner_accounts
  owner_accounts-Keeps = bind-Keeps (get_cached_balances-Keeps read) (λ b. pure-Keeps _)

  pub ledgers-Keeps : Keeps T P (ledgers {W = W} {E = E})
  unfolding ledgers
  ledgers-Keeps = bind-Keeps (get_cached_balances-Keeps read) (λ b. pure-Keeps _)

  pub get_asset_for_ledger-Keeps : (t : Text) → Keeps T P (get_asset_for_ledger {W = W} {E = E} t)
  unfolding get_asset_for_ledger
  get_asset_for_ledger-Keeps t = bind-Keeps assets-Keeps (λ both. pure-Keeps _)

module _ {W E : Type 0} {T : Type 0} {P : Canister → Type 0} where
  pub unwrap-Keeps : {A F : Type 0} → T → (r : Result A F) → Keeps T P (unwrap {W = W} {E = E} r)
  unfolding unwrap
  unwrap-Keeps t (ok a) = pure-Keeps a
  unwrap-Keeps t (err e) = trap-Keeps t

fused :
    (u v : Update) (s : ConfigState)
    → map_balances (λ b. apply v (apply u b)) s ≡ map_balances (apply v) (map_balances (apply u) s)
fused u v uninitialized = refl
fused u v (initialized b) = refl

module _ {W E : Type 0} {env : Env W} {T : Type 0} {A : Update → Type 0} {P : Canister → Type 0}
    (inv : IsInvariant env T A P) where
  pub update-Keeps : (u : Update) → A u → Keeps T P (with_balances_mut {W = W} {E = E} (apply u))
  unfolding with_balances_mut
  update-Keeps u h = modify-Keeps (updated u) (inv.update u h)

  pub finalize-Keeps :
      (op : Operation) → Keeps T P (finalize_audit_trail_transaction {W = W} {E = E} op)
  unfolding finalize_audit_trail_transaction
  finalize-Keeps op = modify-Keeps (finalized op) (inv.finalize op)

  pub charge_fee-Keeps :
      (a : ValidatedAsset) → A (Update.charge a) → Keeps T P (charge_fee {W = W} {E = E} a)
  unfolding charge_fee apply
  charge_fee-Keeps a = update-Keeps (Update.charge a)

  pub move_asset-Keeps :
      (a : ValidatedAsset) (n : ℕ) (from to : Party)
      → A (Update.move a from to n)
      → Keeps T P (move_asset {W = W} {E = E} a n from to)
  unfolding move_asset apply
  move_asset-Keeps a n from to = update-Keeps (Update.move a from to n)

  pub add_manager_balance-Keeps :
      (a : ValidatedAsset) (n : ℕ)
      → A (Update.credit a n)
      → Keeps T P (add_manager_balance {W = W} {E = E} a n)
  unfolding add_manager_balance apply
  add_manager_balance-Keeps a n = update-Keeps (Update.credit a n)

  pub deposit_check-Keeps :
      (a : ValidatedAsset) (x y z : ℕ)
      → A (Update.deposit_check a x y z)
      → Keeps T P (find_discrepency {W = W} {E = E} a x y z true)
  unfolding find_discrepency apply
  deposit_check-Keeps a x y z = update-Keeps (Update.deposit_check a x y z)

  pub withdraw_check-Keeps :
      (a : ValidatedAsset) (x y z : ℕ)
      → A (Update.withdraw_check a x y z)
      → Keeps T P (find_discrepency {W = W} {E = E} a x y z false)
  unfolding find_discrepency apply
  withdraw_check-Keeps a x y z = update-Keeps (Update.withdraw_check a x y z)

  -- Two operations in one closure are one after the other.
  pub update_twice-Keeps :
      (u v : Update)
      → A u
      → A v
      → Keeps T P (with_balances_mut {W = W} {E = E} (λ b. apply v (apply u b)))
  unfolding with_balances_mut
  update_twice-Keeps u v x y =
      modify-Keeps _
        (λ c h. rw (fused u v c.balances) (inv.update v y (updated u c) (inv.update u x c h)))
