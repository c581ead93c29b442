-- ===== src/Adaptor/Invariant/Withdraw.antt =====
-- The functions of withdraw/mod.rs keep every invariant.
use sns_kongswap_adaptor.Base.{ℕ, false, Option, none, some, List, [], ◌∷◌}
use sns_kongswap_adaptor.Base.Text.{Text}
use sns_kongswap_adaptor.Base.Result.{Result, ok, err}
use sns_kongswap_adaptor.Sns.{Account, Error, Operation}
use sns_kongswap_adaptor.Validation.Asset.{ValidatedAsset}
use sns_kongswap_adaptor.Balances.{Party}
use sns_kongswap_adaptor.Balances.Flows.{Permits, from_dex, withdraw_checked, withdrawn}
use sns_kongswap_adaptor.Adaptor.State.{move_asset, find_discrepency}
use sns_kongswap_adaptor.Agent.{ClaimsReply, ClaimReply}
use sns_kongswap_adaptor.Machine.{Env, Canister}
use sns_kongswap_adaptor.Machine.Keeps.{
  Keeps, IsReadable, action_rules, pure-Keeps, throw-Keeps, get_cached_balances-Keeps,
}
use sns_kongswap_adaptor.Adaptor.Withdraw.{
  report_claims, all_claimed, answer_withdrawal, book_withdrawal, withdraw_from_dex, book_claim,
  identify_claim, claimed_by, settle_claim, claim_all, retry_withdraw_from_dex, withdraw_impl,
}
use sns_kongswap_adaptor.Adaptor.Kong.{lp_balance}
use sns_kongswap_adaptor.Adaptor.Ledgers.{get_ledger_balances}
use sns_kongswap_adaptor.Adaptor.Invariant.{
  IsInvariant, assets-Keeps, get_asset_for_ledger-Keeps, unwrap-Keeps, move_asset-Keeps,
  withdraw_check-Keeps,
}
use sns_kongswap_adaptor.Adaptor.Invariant.Ledgers.{
  lp_balance-Keeps, get_ledger_balances-Keeps, return_remaining_assets_to_owner-Keeps,
}

module _ {W : Type 0} {T : Type 0} {P : Canister → Type 0} where
  report_claims-Keeps : (ids : List ℕ) → Keeps T P (report_claims {W = W} ids)
  unfolding report_claims
  report_claims-Keeps [] = pure-Keeps tt
  report_claims-Keeps (c ∷ cs) = throw-Keeps _

  all_claimed-Keeps : (es : List Error) → Keeps T P (all_claimed {W = W} es)
  unfolding all_claimed
  all_claimed-Keeps [] = pure-Keeps tt
  all_claimed-Keeps (e ∷ es) = throw-Keeps _

module _ {W : Type 0} {T : Type 0} {P : Canister → Type 0}
    (read : (c : Canister) → P c → IsReadable T c.balances) where
  answer_withdrawal-Keeps :
      (es : List Error) (r : Result (Unit {0}) (List Error))
      → Keeps T P (answer_withdrawal {W = W} es r)
  unfolding answer_withdrawal
  answer_withdrawal-Keeps es (ok returned) = get_cached_balances-Keeps read
  answer_withdrawal-Keeps es (err e) = throw-Keeps _

module _ {W : Type 0} {env : Env W} {T : Type 0} {P : Canister → Type 0}
    (inv : IsInvariant env T (Permits Operation.withdraw) P) (may : T) where
  ledger_balances-Keeps : Keeps T P (get_ledger_balances env)
  ledger_balances-Keeps = get_ledger_balances-Keeps inv

  lp-Keeps : Keeps T P (lp_balance {E = List Error} env)
  lp-Keeps = lp_balance-Keeps inv

  move-Keeps :
      (a : ValidatedAsset) (n : ℕ)
      → Keeps T P (move_asset {W = W} {E = List Error} a n Party.external Party.treasury_manager)
  move-Keeps a n = move_asset-Keeps inv a n _ _ (from_dex a n)

  check-Keeps :
      (a : ValidatedAsset) (x y z : ℕ)
      → Keeps T P (find_discrepency {W = W} {E = List Error} a x y z false)
  check-Keeps a x y z = withdraw_check-Keeps inv a x y z (withdraw_checked a x y z)

  book_withdrawal-Keeps :
      (a : ValidatedAsset) (x y n m : ℕ) → Keeps T P (book_withdrawal env a x y n m)
  unfolding book_withdrawal
  book_withdrawal-Keeps a x y n m =
      search (action_rules, unwrap-Keeps may, check-Keeps, move-Keeps) depth 12

  withdraw_from_dex-Keeps : Keeps T P (withdraw_from_dex env)
  unfolding withdraw_from_dex
  withdraw_from_dex-Keeps =
      search
        (
          action_rules,
          inv.emit,
          lp-Keeps,
          assets-Keeps inv.read,
          ledger_balances-Keeps,
          book_withdrawal-Keeps,
          report_claims-Keeps,
        )
        depth 20

  book_claim-Keeps :
      (id : ℕ) (a : ValidatedAsset) (x y : ℕ) (r : Result ℕ Text)
      → Keeps T P (book_claim env id a x y r)
  unfolding book_claim
  book_claim-Keeps id a x y (ok n) = search (action_rules, move-Keeps, check-Keeps) depth 12
  book_claim-Keeps id a x y (err e) = pure-Keeps _

  identify_claim-Keeps :
      (id : ℕ) (t : Text) (n : ℕ) (x y : ℕ × ℕ) (a : Option ValidatedAsset)
      → Keeps T P (identify_claim env id t n x y a)
  unfolding identify_claim
  identify_claim-Keeps id t n x y none = pure-Keeps _
  identify_claim-Keeps id t n x y (some a) =
      search (action_rules, assets-Keeps inv.read, book_claim-Keeps) depth 12

  claimed_by-Keeps :
      (id : ℕ) (x y : ℕ × ℕ) (r : ClaimReply) (c : Option Text)
      → Keeps T P (claimed_by env id x y r c)
  claimed_by-Keeps id x y r none = pure-Keeps _
  claimed_by-Keeps id x y r (some c) =
      search (action_rules, get_asset_for_ledger-Keeps inv.read, identify_claim-Keeps) depth 12

  settle_claim-Keeps :
      (id : ℕ) (x y : ℕ × ℕ) (r : Result ClaimReply Error) → Keeps T P (settle_claim env id x y r)
  unfolding settle_claim
  settle_claim-Keeps id x y (ok r) = claimed_by-Keeps id x y r r.canister_id
  settle_claim-Keeps id x y (err e) = pure-Keeps _

  claim_all-Keeps :
      (x : ℕ × ℕ) (cs : List ClaimsReply) (es : List Error) → Keeps T P (claim_all env x cs es)
  unfolding claim_all
  claim_all-Keeps x [] es = pure-Keeps es
  claim_all-Keeps x (c ∷ cs) es =
      search
        (action_rules, inv.emit, ledger_balances-Keeps, settle_claim-Keeps, claim_all-Keeps x cs)
        depth 12

  retry_withdraw_from_dex-Keeps : Keeps T P (retry_withdraw_from_dex env)
  unfolding retry_withdraw_from_dex
  retry_withdraw_from_dex-Keeps =
      search (action_rules, inv.emit, ledger_balances-Keeps, claim_all-Keeps, all_claimed-Keeps)
        depth 12

  pub withdraw_impl-Keeps : (a b : Account) → Keeps T P (withdraw_impl env a b)
  unfolding withdraw_impl
  withdraw_impl-Keeps a b =
      search
        (
          action_rules,
          withdraw_from_dex-Keeps,
          retry_withdraw_from_dex-Keeps,
          return_remaining_assets_to_owner-Keeps inv withdrawn,
          answer_withdrawal-Keeps inv.read,
        )
        depth 12
