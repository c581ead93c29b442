-- ===== src/Adaptor/Writes/Withdraw.antt =====
-- What the parts of a withdrawal write into the books.
use sns_kongswap_adaptor.Base.{ℕ, Option, none, some, List, [], ◌∷◌}
use sns_kongswap_adaptor.Base.Text.{Text}
use sns_kongswap_adaptor.Base.Result.{Result, ok, err}
use sns_kongswap_adaptor.Sns.{Principal, Error, TreasuryManagerOperation}
use sns_kongswap_adaptor.Validation.Asset.{ValidatedAsset}
use sns_kongswap_adaptor.Agent.{Request, ClaimsReply, ClaimReply}
use sns_kongswap_adaptor.Machine.Emit.{emit_transaction}
use sns_kongswap_adaptor.Adaptor.Kong.{lp_balance}
use sns_kongswap_adaptor.Adaptor.Ledgers.{get_ledger_balances}
use sns_kongswap_adaptor.Adaptor.Writes.{lp_token-Nothing, get_ledger_balances-Nothing}
use sns_kongswap_adaptor.Machine.{Env}
use sns_kongswap_adaptor.Machine.Emit.Quiet.{IsQuiet}
use sns_kongswap_adaptor.Machine.Writes.{Writes}
use sns_kongswap_adaptor.Machine.Writes.Nothing.{emit-Nothing, nothing_rules}
use sns_kongswap_adaptor.Adaptor.Withdraw.{
  report_claims, all_claimed, book_withdrawal, withdraw_from_dex, book_claim, identify_claim,
  claimed_by, settle_claim, claim_all, retry_withdraw_from_dex,
}
use sns_kongswap_adaptor.Adaptor.Writes.Takes.{
  Takes, Nothing-Takes, pure-Takes, throw-Takes, unwrap-Takes, taking_rules,
}

module _ {pair : ValidatedAsset × ValidatedAsset} {W : Type 0} where
  report_claims-Takes : (ids : List ℕ) → Writes Unit pair Takes (report_claims {W = W} ids)
  unfolding report_claims
  report_claims-Takes [] = pure-Takes tt
  report_claims-Takes (c ∷ cs) = throw-Takes _

  all_claimed-Takes : (es : List Error) → Writes Unit pair Takes (all_claimed {W = W} es)
  unfolding all_claimed
  all_claimed-Takes [] = pure-Takes tt
  all_claimed-Takes (e ∷ es) = throw-Takes _

module _ {pair : ValidatedAsset × ValidatedAsset} {W : Type 0} (env : Env W)
    (quiet : IsQuiet env) where
  emit-Takes :
      (op : TreasuryManagerOperation) (p : Principal) (r : Request) (purpose : Text)
      → Writes Unit pair Takes (emit_transaction env op p r purpose)
  emit-Takes op p r purpose = Nothing-Takes (emit-Nothing env quiet op p r purpose)

  ledger_balances-Takes : Writes Unit pair Takes (get_ledger_balances env)
  ledger_balances-Takes = Nothing-Takes (get_ledger_balances-Nothing env quiet)

  lp-Takes : Writes Unit pair Takes (lp_balance {E = List Error} env)
  unfolding lp_balance
  lp-Takes =
      Nothing-Takes (search (nothing_rules, emit-Nothing env quiet, lp_token-Nothing) depth 12)

  book_withdrawal-Takes :
      (a : ValidatedAsset) (x y n m : ℕ) → Writes Unit pair Takes (book_withdrawal env a x y n m)
  unfolding book_withdrawal
  book_withdrawal-Takes a x y n m = search (taking_rules, unwrap-Takes) depth 12

  pub withdraw_from_dex-Takes : Writes Unit pair Takes (withdraw_from_dex env)
  unfolding withdraw_from_dex
  withdraw_from_dex-Takes =
      search
        (
          taking_rules, emit-Takes, lp-Takes, ledger_balances-Takes, book_withdrawal-Takes,
          report_claims-Takes,
        )
        depth 20

  book_claim-Takes :
      (id : ℕ) (a : ValidatedAsset) (x y : ℕ) (r : Result ℕ Text)
      → Writes Unit pair Takes (book_claim env id a x y r)
  unfolding book_claim
  book_claim-Takes id a x y (ok n) = search taking_rules depth 12
  book_claim-Takes id a x y (err e) = pure-Takes _

  identify_claim-Takes :
      (id : ℕ) (t : Text) (n : ℕ) (x y : ℕ × ℕ) (a : Option ValidatedAsset)
      → Writes Unit pair Takes (identify_claim env id t n x y a)
  unfolding identify_claim
  identify_claim-Takes id t n x y none = pure-Takes _
  identify_claim-Takes id t n x y (some a) = search (taking_rules, book_claim-Takes) depth 12

  claimed_by-Takes :
      (id : ℕ) (x y : ℕ × ℕ) (r : ClaimReply) (c : Option Text)
      → Writes Unit pair Takes (claimed_by env id x y r c)
  claimed_by-Takes id x y r none = pure-Takes _
  claimed_by-Takes id x y r (some c) = search (taking_rules, identify_claim-Takes) depth 12

  settle_claim-Takes :
      (id : ℕ) (x y : ℕ × ℕ) (r : Result ClaimReply Error)
      → Writes Unit pair Takes (settle_claim env id x y r)
  unfolding settle_claim
  settle_claim-Takes id x y (ok r) = claimed_by-Takes id x y r r.canister_id
  settle_claim-Takes id x y (err e) = pure-Takes _

  claim_all-Takes :
      (x : ℕ × ℕ) (cs : List ClaimsReply) (es : List Error)
      → Writes Unit pair Takes (claim_all env x cs es)
  unfolding claim_all
  claim_all-Takes x [] es = pure-Takes es
  claim_all-Takes x (c ∷ cs) es =
      search
        (taking_rules, emit-Takes, ledger_balances-Takes, settle_claim-Takes, claim_all-Takes x cs)
        depth 12

  pub retry_withdraw_from_dex-Takes : Writes Unit pair Takes (retry_withdraw_from_dex env)
  unfolding retry_withdraw_from_dex
  retry_withdraw_from_dex-Takes =
      search (taking_rules, emit-Takes, ledger_balances-Takes, claim_all-Takes, all_claimed-Takes)
        depth 12
