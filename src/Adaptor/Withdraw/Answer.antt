-- ===== src/Adaptor/Withdraw/Answer.antt =====
-- What a withdrawal answers.
use sns_kongswap_adaptor.Base.{◌≡◌, refl, ◌∙◌, ◌≢◌}
use sns_kongswap_adaptor.Base.Result.{Result, ok, err}
use sns_kongswap_adaptor.Sns.{Account}
use sns_kongswap_adaptor.Balances.{ValidatedBalances}
use sns_kongswap_adaptor.Machine.{
  Env, Machine, Action, Flow, done, fail, trapped, initialized, attempt, ◌>>=◌, get_cached_balances,
  pure,
}
use sns_kongswap_adaptor.Adaptor.Ledgers.{return_remaining_assets_to_owner}
use sns_kongswap_adaptor.Adaptor.Withdraw.{
  withdraw_from_dex, retry_withdraw_from_dex, withdraw_impl, answer_withdrawal,
}

-- Looking at a result goes on after a value and after an error alike.
attempt-continues :
    {W A B E F : Type 0} (x : Action W A E) (f : Result A E → Action W B F) (m : Machine W)
    → (x m).0 ≢ trapped
    → (r : Result A E) × ((attempt x >>= f) m ≡ f r (x m).1)
unfolding attempt ◌>>=◌
attempt-continues {A} {E} x f m h = by_flow (x m).0 refl
  where
    by_flow : (r : Flow A E) → (x m).0 ≡ r → (r : Result A E) × ((attempt x >>= f) m ≡ f r (x m).1)
    by_flow (done a) e = (ok a, rw e refl)
    by_flow (fail e') e = (err e', rw e refl)
    by_flow trapped e = elim (h e) [ ]

attempt-done :
    {W A B E F : Type 0} (x : Action W A E) (f : Result A E → Action W B F) (m : Machine W) (a : A)
    → (x m).0 ≡ done a
    → (attempt x >>= f) m ≡ f (ok a) (x m).1
unfolding attempt ◌>>=◌
attempt-done x f m a h = rw h refl

get_cached_balances_lem :
    {W E : Type 0} (m : Machine W) (b : ValidatedBalances)
    → m.canister.balances ≡ initialized b
    → get_cached_balances {E = E} m ≡ (done b, m)
unfolding get_cached_balances pure
get_cached_balances_lem m b h = rw h refl

-- Once the return of the assets has succeeded and left the canister initialized, a withdrawal
-- answers with its balances and without an error, also where the withdrawal from the DEX or the
-- claims before it have failed, as long as these do not trap.
pub withdraw_impl_answers :
    {W : Type 0} (env : Env W) (account_0 account_1 : Account) (m : Machine W)
    (b : ValidatedBalances)
    → let withdrawn = withdraw_from_dex env m in
      let retried = retry_withdraw_from_dex env withdrawn.1 in
      let returned = return_remaining_assets_to_owner env account_0 account_1 retried.1 in
      withdrawn.0 ≢ trapped
      → retried.0 ≢ trapped
      → returned.0 ≡ done tt
      → returned.1.canister.balances ≡ initialized b
      → withdraw_impl env account_0 account_1 m ≡ (done b, returned.1)
unfolding withdraw_impl answer_withdrawal
withdraw_impl_answers env a0 a1 m b h k l i =
    let m1 = (withdraw_from_dex env m).1 in
    let m2 = (retry_withdraw_from_dex env m1).1 in
    let m3 = (return_remaining_assets_to_owner env a0 a1 m2).1 in
    let (r, first) = attempt-continues (withdraw_from_dex env) _ m h in
    let (q, second) = attempt-continues (retry_withdraw_from_dex env) _ m1 k in
    let third = attempt-done (return_remaining_assets_to_owner env a0 a1) _ m2 tt l in
    first ∙ second ∙ third ∙ get_cached_balances_lem m3 b i
