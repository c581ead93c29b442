-- ===== src/Adaptor/Isolation/Withdraw.antt =====
-- The methods of withdraw/mod.rs.
use sns_kongswap_adaptor.Base.{ℕ, Option, none, some, List, [], ◌∷◌}
use sns_kongswap_adaptor.Base.Text.{Text}
use sns_kongswap_adaptor.Base.Result.{Result, ok, err}
use sns_kongswap_adaptor.Sns.{Account, Error}
use sns_kongswap_adaptor.Validation.Asset.{ValidatedAsset}
use sns_kongswap_adaptor.Agent.{ClaimsReply, ClaimReply}
use sns_kongswap_adaptor.Machine.{Env, Canister}
use sns_kongswap_adaptor.Machine.Agrees.{
  Agrees, pure-Agrees, throw-Agrees, get_cached_balances-Agrees,
}
use sns_kongswap_adaptor.Adaptor.Withdraw.{
  report_claims, all_claimed, answer_withdrawal, book_withdrawal, withdraw_from_dex, book_claim,
  identify_claim, claimed_by, settle_claim, claim_all, retry_withdraw_from_dex, withdraw_impl,
}
use sns_kongswap_adaptor.Adaptor.Kong.{lp_balance}
use sns_kongswap_adaptor.Adaptor.Ledgers.{get_ledger_balances}
use sns_kongswap_adaptor.Adaptor.Isolation.{IsIsolated, with_others, silent_rules}
use sns_kongswap_adaptor.Adaptor.Isolation.Ledgers.{
  lp_balance-Agrees, get_ledger_balances-Agrees, return_remaining_assets_to_owner-Agrees,
}

module _ {W : Type 0} where
  report_claims-Agrees : (ids : List ℕ) → Agrees (report_claims {W = W} ids) (report_claims ids)
  unfolding report_claims
  report_claims-Agrees [] = pure-Agrees tt
  report_claims-Agrees (c ∷ cs) = throw-Agrees _

  all_claimed-Agrees : (es : List Error) → Agrees (all_claimed {W = W} es) (all_claimed es)
  unfolding all_claimed
  all_claimed-Agrees [] = pure-Agrees tt
  all_claimed-Agrees (e ∷ es) = throw-Agrees _

  answer_withdrawal-Agrees :
      (es : List Error) (r : Result (Unit {0}) (List Error))
      → Agrees (answer_withdrawal {W = W} es r) (answer_withdrawal es r)
  unfolding answer_withdrawal
  answer_withdrawal-Agrees es (ok returned) = get_cached_balances-Agrees
  answer_withdrawal-Agrees es (err e) = throw-Agrees _

module _ {W : Type 0} {env : Env W} {o : W → Canister → Canister} (alone : IsIsolated env o) where
  ledger_balances-Agrees :
      Agrees (get_ledger_balances (with_others env o)) (get_ledger_balances env)
  ledger_balances-Agrees = get_ledger_balances-Agrees alone

  lp-Agrees : Agrees (lp_balance {E = List Error} (with_others env o)) (lp_balance env)
  lp-Agrees = lp_balance-Agrees alone

  book_withdrawal-Agrees :
      (a : ValidatedAsset) (x y n m : ℕ)
      → Agrees (book_withdrawal (with_others env o) a x y n m) (book_withdrawal env a x y n m)
  unfolding book_withdrawal
  book_withdrawal-Agrees a x y n m = search silent_rules depth 12

  withdraw_from_dex-Agrees : Agrees (withdraw_from_dex (with_others env o)) (withdraw_from_dex env)
  unfolding withdraw_from_dex
  withdraw_from_dex-Agrees =
      search
        (
          silent_rules, alone.emit, lp-Agrees, ledger_balances-Agrees, book_withdrawal-Agrees,
          report_claims-Agrees,
        )
        depth 20

  book_claim-Agrees :
      (id : ℕ) (a : ValidatedAsset) (x y : ℕ) (r : Result ℕ Text)
      → Agrees (book_claim (with_others env o) id a x y r) (book_claim env id a x y r)
  unfolding book_claim
  book_claim-Agrees id a x y (ok n) = search silent_rules depth 12
  book_claim-Agrees id a x y (err e) = pure-Agrees _

  identify_claim-Agrees :
      (id : ℕ) (t : Text) (n : ℕ) (x y : ℕ × ℕ) (a : Option ValidatedAsset)
      → Agrees (identify_claim (with_others env o) id t n x y a) (identify_claim env id t n x y a)
  unfolding identify_claim
  identify_claim-Agrees id t n x y none = pure-Agrees _
  identify_claim-Agrees id t n x y (some a) = search (silent_rules, book_claim-Agrees) depth 12

  claimed_by-Agrees :
      (id : ℕ) (x y : ℕ × ℕ) (r : ClaimReply) (c : Option Text)
      → Agrees (claimed_by (with_others env o) id x y r c) (claimed_by env id x y r c)
  claimed_by-Agrees id x y r none = pure-Agrees _
  claimed_by-Agrees id x y r (some c) = search (silent_rules, identify_claim-Agrees) depth 12

  settle_claim-Agrees :
      (id : ℕ) (x y : ℕ × ℕ) (r : Result ClaimReply Error)
      → Agrees (settle_claim (with_others env o) id x y r) (settle_claim env id x y r)
  unfolding settle_claim
  settle_claim-Agrees id x y (ok r) = claimed_by-Agrees id x y r r.canister_id
  settle_claim-Agrees id x y (err e) = pure-Agrees _

  claim_all-Agrees :
      (x : ℕ × ℕ) (cs : List ClaimsReply) (es : List Error)
      → Agrees (claim_all (with_others env o) x cs es) (claim_all env x cs es)
  unfolding claim_all
  claim_all-Agrees x [] es = pure-Agrees es
  claim_all-Agrees x (c ∷ cs) es =
      search
        (
          silent_rules,
          alone.emit,
          ledger_balances-Agrees,
          settle_claim-Agrees,
          claim_all-Agrees x cs,
        )
        depth 12

  retry_withdraw_from_dex-Agrees :
      Agrees (retry_withdraw_from_dex (with_others env o)) (retry_withdraw_from_dex env)
  unfolding retry_withdraw_from_dex
  retry_withdraw_from_dex-Agrees =
      search
        (silent_rules, alone.emit, ledger_balances-Agrees, claim_all-Agrees, all_claimed-Agrees)
        depth 12

  pub withdraw_impl-Agrees :
      (a b : Account) → Agrees (withdraw_impl (with_others env o) a b) (withdraw_impl env a b)
  unfolding withdraw_impl
  withdraw_impl-Agrees a b =
      search
        (
          silent_rules,
          withdraw_from_dex-Agrees,
          retry_withdraw_from_dex-Agrees,
          return_remaining_assets_to_owner-Agrees alone,
          answer_withdrawal-Agrees,
        )
        depth 12
