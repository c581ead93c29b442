-- ===== src/Adaptor/Isolation/Ledgers.antt =====
-- The methods of kong_api.rs and ledger_api.rs.
use sns_kongswap_adaptor.Base.{ℕ, List, [], ◌∷◌}
use sns_kongswap_adaptor.Base.Text.{Text}
use sns_kongswap_adaptor.Base.Result.{Result, ok, err}
use sns_kongswap_adaptor.Sns.{Principal, Account, Error}
use sns_kongswap_adaptor.Validation.Asset.{ValidatedAsset}
use sns_kongswap_adaptor.Agent.{TokenReply}
use sns_kongswap_adaptor.Machine.{Env, Canister}
use sns_kongswap_adaptor.Machine.Agrees.{Agrees, pure-Agrees, throw-Agrees, if-Agrees}
use sns_kongswap_adaptor.Adaptor.Kong.{lp_token, maybe_add_token, tolerate_existing, lp_balance}
use sns_kongswap_adaptor.Adaptor.Ledgers.{
  get_ledger_balance_decimals, get_ledger_balances, return_remaining_assets_to_owner_impl,
  return_remaining_assets_to_owner, all_returned,
}
use sns_kongswap_adaptor.Adaptor.Isolation.{IsIsolated, with_others, silent_rules}

module _ {W E : Type 0} where
  pub lp_token-Agrees : Agrees (lp_token {W = W} {E = E}) lp_token
  unfolding lp_token
  lp_token-Agrees = search silent_rules depth 8

module _ {W : Type 0} where
  tolerate_existing-Agrees :
      (token : Text) (r : Result TokenReply Error)
      → Agrees (tolerate_existing {W = W} token r) (tolerate_existing token r)
  unfolding tolerate_existing
  tolerate_existing-Agrees token (ok reply) = pure-Agrees tt
  tolerate_existing-Agrees token (err e) = if-Agrees _ _ _ _ _ (pure-Agrees tt) (throw-Agrees e)

  all_returned-Agrees : (es : List Error) → Agrees (all_returned {W = W} es) (all_returned es)
  all_returned-Agrees [] = pure-Agrees tt
  all_returned-Agrees (e ∷ es) = throw-Agrees _

module _ {W : Type 0} {env : Env W} {o : W → Canister → Canister} (alone : IsIsolated env o) where
  pub maybe_add_token-Agrees :
      (p : Principal) → Agrees (maybe_add_token (with_others env o) p) (maybe_add_token env p)
  unfolding maybe_add_token
  maybe_add_token-Agrees p = search (silent_rules, alone.emit, tolerate_existing-Agrees) depth 12

  pub lp_balance-Agrees :
      {E : Type 0} → Agrees (lp_balance {E = E} (with_others env o)) (lp_balance env)
  unfolding lp_balance
  lp_balance-Agrees = search (silent_rules, alone.emit, lp_token-Agrees) depth 12

  get_ledger_balance_decimals-Agrees :
      (a : ValidatedAsset)
      → Agrees
          (get_ledger_balance_decimals (with_others env o) a)
          (get_ledger_balance_decimals env a)
  unfolding get_ledger_balance_decimals
  get_ledger_balance_decimals-Agrees a = search (silent_rules, alone.emit) depth 12

  pub get_ledger_balances-Agrees :
      Agrees (get_ledger_balances (with_others env o)) (get_ledger_balances env)
  unfolding get_ledger_balances
  get_ledger_balances-Agrees = search (silent_rules, get_ledger_balance_decimals-Agrees) depth 12

  return_impl-Agrees :
      (a : ValidatedAsset) (n : ℕ) (account : Account)
      → Agrees
          (return_remaining_assets_to_owner_impl (with_others env o) a n account)
          (return_remaining_assets_to_owner_impl env a n account)
  unfolding return_remaining_assets_to_owner_impl
  return_impl-Agrees a n account = search (silent_rules, alone.emit) depth 12

  pub return_remaining_assets_to_owner-Agrees :
      (a b : Account)
      → Agrees
          (return_remaining_assets_to_owner (with_others env o) a b)
          (return_remaining_assets_to_owner env a b)
  unfolding return_remaining_assets_to_owner
  return_remaining_assets_to_owner-Agrees a b =
      search (silent_rules, get_ledger_balances-Agrees, return_impl-Agrees, all_returned-Agrees)
        depth 12
