-- ===== src/Adaptor/Writes/Withdrawn.antt =====
-- What a whole withdrawal writes into the books.
use mathlib.Core.List.{append-nil, append_assoc}
use mathlib.Core.Path.{subst}
use sns_kongswap_adaptor.Base.{ℕ, ◌≡◌, refl, sym, ◌∙◌, List, ◌++◌}
use sns_kongswap_adaptor.Base.Result.{Result, ok, err}
use sns_kongswap_adaptor.Sns.{Account, Error}
use sns_kongswap_adaptor.Validation.Asset.{ValidatedAsset}
use sns_kongswap_adaptor.Balances.{ValidatedBalances}
use sns_kongswap_adaptor.Balances.Bounds.{Update, apply_all}
use sns_kongswap_adaptor.Machine.{Env, Machine, done, initialized}
use sns_kongswap_adaptor.Machine.Answers.{
  Answers, get_cached_balances-Answers, throw-Answers, bind-Answers,
}
use sns_kongswap_adaptor.Machine.Emit.Quiet.{IsQuiet}
use sns_kongswap_adaptor.Machine.Writes.{
  assets_of, Post, Writes, OnOk, OnOk-all, Attempted, weaken, bind-Writes, attempt-Writes,
  throw-Writes,
}
use sns_kongswap_adaptor.Machine.Writes.Nothing.{get_cached_balances-Writes}
use sns_kongswap_adaptor.Adaptor.Withdraw.{withdraw_impl, answer_withdrawal}
use sns_kongswap_adaptor.Adaptor.Writes.{
  Returned, to_owner, return_remaining_assets_to_owner-Writes,
}
use sns_kongswap_adaptor.Adaptor.Writes.Deposit.{initialized_eq}
use sns_kongswap_adaptor.Adaptor.Writes.Takes.{AllTaking, AllTaking-append, attempt-Takes}
use sns_kongswap_adaptor.Adaptor.Writes.Withdraw.{
  withdraw_from_dex-Takes, retry_withdraw_from_dex-Takes,
}

-- What is taken from the DEX, and then both returns, of the two assets of the books.
abbrev pub IsWithdrawn : ValidatedAsset × ValidatedAsset → List Update → Type 0
IsWithdrawn pair us =
    (taken : List Update) × (returned : ℕ × ℕ) × AllTaking taken
    × (us ≡ taken ++ (to_owner pair.0 returned.0 ++ to_owner pair.1 returned.1))

module _ {pair : ValidatedAsset × ValidatedAsset} {W : Type 0} (env : Env W) where
  -- The end of a withdrawal: the returns have come to an end without an error, or it fails.
  answer_withdrawal-Writes :
      (es : List Error) (y : Result (Unit {0}) (List Error)) (us vs ws : List Update)
      → AllTaking us
      → AllTaking vs
      → OnOk (λ u ws. Returned env pair ws) y ws
      → Writes Unit pair
          (λ r ts. OnOk (λ s ts. IsWithdrawn pair ts) r (us ++ (vs ++ (ws ++ ts))))
          (answer_withdrawal {W = W} es y)
  unfolding answer_withdrawal
  answer_withdrawal-Writes es (ok v) us vs ws h t (n_0, n_1, first, second, k) =
      weaken
        (λ r ts e.
          OnOk-all _ _
            (λ s. (
              us ++ vs,
              (n_0, n_1),
              AllTaking-append us vs h t,
              simp (k, e.0, append-nil, append_assoc),
            ))
            r)
        get_cached_balances-Writes
  answer_withdrawal-Writes es (err e) us vs ws h t k = throw-Writes _ tt

module _ {W : Type 0} (env : Env W) (quiet : IsQuiet env) (pair : ValidatedAsset × ValidatedAsset)
    (a b : Account) where
  withdraw_impl-Writes :
      Writes Unit pair (OnOk (λ v us. IsWithdrawn pair us)) (withdraw_impl env a b)
  unfolding withdraw_impl
  withdraw_impl-Writes =
      bind-Writes (attempt-Takes (withdraw_from_dex-Takes env quiet))
        (λ x us h.
          bind-Writes (attempt-Takes (retry_withdraw_from_dex-Takes env quiet))
            (λ y vs k.
              bind-Writes
                (attempt-Writes {R = Attempted (OnOk (λ u ws. Returned env pair ws))}
                  (return_remaining_assets_to_owner-Writes env quiet a b))
                (λ z ws l. answer_withdrawal-Writes env _ z us vs ws h k l) (λ e ws l. tt))
            (λ e vs k. tt))
        (λ e us h. tt)

answer_withdrawal-Answers :
    {W : Type 0} (es : List Error) (y : Result (Unit {0}) (List Error))
    → Answers (answer_withdrawal {W = W} es y)
unfolding answer_withdrawal
answer_withdrawal-Answers es (ok v) = get_cached_balances-Answers
answer_withdrawal-Answers es (err e) = throw-Answers _

withdraw_impl-Answers : {W : Type 0} (env : Env W) (a b : Account) → Answers (withdraw_impl env a b)
unfolding withdraw_impl
withdraw_impl-Answers env a b =
    bind-Answers _ _
      (λ x. bind-Answers _ _ (λ y. bind-Answers _ _ (λ z. answer_withdrawal-Answers _ z)))

-- Where a withdrawal succeeds while no other message changes the books, it answers with the books that
-- it leaves, and they come from those before by takings from the DEX and then the two returns.
pub withdraw_impl-IsWithdrawn :
    {W : Type 0} (env : Env W) (a b : Account) (m : Machine W) (before after : ValidatedBalances)
    → IsQuiet env
    → m.canister.balances ≡ initialized before
    → (withdraw_impl env a b m).0 ≡ done after
    → (us : List Update) × IsWithdrawn (assets_of before) us
      × (after ≡ apply_all us before)
      × ((withdraw_impl env a b m).1.canister.balances ≡ initialized after)
withdraw_impl-IsWithdrawn env a b m before after quiet e h =
    let answered = (withdraw_impl-Answers env a b).at m after h in
    let post = (withdraw_impl-Writes env quiet (assets_of before) a b).at m before e refl in
    let (us, withdrawn, books, kept) =
      subst
        (λ r.
          Post (assets_of before) Unit (OnOk (λ v us. IsWithdrawn (assets_of before) us)) before r
            (withdraw_impl env a b m).1.canister.balances)
        h post in
    (us, withdrawn, initialized_eq (sym answered ∙ books), answered)
