-- ===== src/Adaptor/Invariant/Ledgers.antt =====
-- The functions of kong_api.rs and ledger_api.rs keep every invariant.
use sns_kongswap_adaptor.Base.{ℕ, List, [], ◌∷◌}
use sns_kongswap_adaptor.Base.Text.{Text}
use sns_kongswap_adaptor.Base.Result.{Result, ok, err}
use sns_kongswap_adaptor.Sns.{Principal, Account, Error}
use sns_kongswap_adaptor.Validation.Asset.{ValidatedAsset}
use sns_kongswap_adaptor.Balances.{Party}
use sns_kongswap_adaptor.Balances.Bounds.{Update}
use sns_kongswap_adaptor.Adaptor.State.{move_asset}
use sns_kongswap_adaptor.Agent.{TokenReply}
use sns_kongswap_adaptor.Machine.{Env, Canister}
use sns_kongswap_adaptor.Machine.Keeps.{
  trap-Keeps, Keeps, IsReadable, pure-Keeps, throw-Keeps, if-Keeps, bind-Keeps, action_rules,
}
use sns_kongswap_adaptor.Adaptor.Kong.{lp_token, maybe_add_token, tolerate_existing, lp_balance}
use sns_kongswap_adaptor.Adaptor.Ledgers.{
  get_ledger_balance_decimals, get_ledger_balances, return_remaining_assets_to_owner_impl,
  return_remaining_assets_to_owner, all_returned,
}
use sns_kongswap_adaptor.Adaptor.Invariant.{IsInvariant, assets-Keeps, move_asset-Keeps}

module _ {W E : Type 0} {T : Type 0} {P : Canister → Type 0} where
  pub lp_token-Keeps :
      ((c : Canister) → P c → IsReadable T c.balances) → Keeps T P (lp_token {W = W} {E = E})
  unfolding lp_token
  lp_token-Keeps read = bind-Keeps (assets-Keeps read) (λ both. (search pure-Keeps))

module _ {W : Type 0} {T : Type 0} {P : Canister → Type 0} where
  tolerate_existing-Keeps :
      (token : Text) (r : Result TokenReply Error) → Keeps T P (tolerate_existing {W = W} token r)
  unfolding tolerate_existing
  tolerate_existing-Keeps token (ok reply) = pure-Keeps tt
  tolerate_existing-Keeps token (err e) = if-Keeps _ _ _ (pure-Keeps tt) (throw-Keeps e)

  all_returned-Keeps : (es : List Error) → Keeps T P (all_returned {W = W} es)
  all_returned-Keeps [] = pure-Keeps tt
  all_returned-Keeps (e ∷ es) = throw-Keeps _

module _ {W : Type 0} {env : Env W} {T : Type 0} {A : Update → Type 0} {P : Canister → Type 0}
    (inv : IsInvariant env T A P) where
  pub maybe_add_token-Keeps : (p : Principal) → Keeps T P (maybe_add_token env p)
  unfolding maybe_add_token
  maybe_add_token-Keeps p = search (action_rules, inv.emit, tolerate_existing-Keeps) depth 12

  pub lp_balance-Keeps : {E : Type 0} → Keeps T P (lp_balance {E = E} env)
  unfolding lp_balance
  lp_balance-Keeps = search (action_rules, inv.emit, lp_token-Keeps inv.read) depth 12

  get_ledger_balance_decimals-Keeps :
      (a : ValidatedAsset) → Keeps T P (get_ledger_balance_decimals env a)
  unfolding get_ledger_balance_decimals
  get_ledger_balance_decimals-Keeps a = search (action_rules, inv.emit) depth 12

  pub get_ledger_balances-Keeps : Keeps T P (get_ledger_balances env)
  unfolding get_ledger_balances
  get_ledger_balances-Keeps =
      search (action_rules, assets-Keeps inv.read, get_ledger_balance_decimals-Keeps) depth 12

module _ {W : Type 0} {env : Env W} {T : Type 0} {A : Update → Type 0} {P : Canister → Type 0}
    (inv : IsInvariant env T A P)
    (returns : (a : ValidatedAsset) (n : ℕ)
      → A (Update.move a Party.treasury_manager Party.treasury_owner n)) where
  to_owner-Keeps :
      (a : ValidatedAsset) (n : ℕ)
      → Keeps T P (move_asset {W = W} {E = Error} a n Party.treasury_manager Party.treasury_owner)
  to_owner-Keeps a n = move_asset-Keeps inv a n _ _ (returns a n)

  ledger_balances-Keeps : Keeps T P (get_ledger_balances env)
  ledger_balances-Keeps = get_ledger_balances-Keeps inv

  return_impl-Keeps :
      (a : ValidatedAsset) (n : ℕ) (account : Account)
      → Keeps T P (return_remaining_assets_to_owner_impl env a n account)
  unfolding return_remaining_assets_to_owner_impl
  return_impl-Keeps a n account =
      search (action_rules, inv.emit, to_owner-Keeps, trap-Keeps inv.admitted) depth 14

  pub return_remaining_assets_to_owner-Keeps :
      (a b : Account) → Keeps T P (return_remaining_assets_to_owner env a b)
  unfolding return_remaining_assets_to_owner
  return_remaining_assets_to_owner-Keeps a b =
      search
        (
          action_rules,
          assets-Keeps inv.read,
          ledger_balances-Keeps,
          return_impl-Keeps,
          all_returned-Keeps,
        )
        depth 12
