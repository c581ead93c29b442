-- ===== src/Adaptor/Writes/Deposit.antt =====
-- What a whole deposit writes into the books.
use mathlib.Core.Path.{subst}
use mathlib.Core.List.{append-nil}
use sns_kongswap_adaptor.Base.{ℕ, ◌≡◌, refl, sym, ◌∙◌, List, ◌++◌}
use sns_kongswap_adaptor.Base.Result.{Result, ok, err}
use sns_kongswap_adaptor.Sns.{Error}
use sns_kongswap_adaptor.Validation.Asset.{ValidatedAsset}
use sns_kongswap_adaptor.Validation.Allowance.{ValidatedAllowance}
use sns_kongswap_adaptor.Balances.{ValidatedBalances}
use sns_kongswap_adaptor.Balances.Bounds.{Update, apply_all}
use sns_kongswap_adaptor.Machine.{Env, Machine, initialized, done}
use sns_kongswap_adaptor.Machine.Answers.{
  Answers, get_cached_balances-Answers, throw-Answers, bind-Answers,
}
use sns_kongswap_adaptor.Machine.Emit.Quiet.{IsQuiet}
use sns_kongswap_adaptor.Machine.Writes.{
  assets_of, Post, Writes, OnOk, OnOk-all, Attempted, throw-Writes, weaken, bind-Writes,
  attempt-Writes,
}
use sns_kongswap_adaptor.Machine.Writes.Nothing.{get_cached_balances-Writes}
use sns_kongswap_adaptor.Machine.Writes.Yields.{known-then, map_fail-OnOk}
use sns_kongswap_adaptor.Adaptor.Deposit.{one, deposited, deposit_impl}
use sns_kongswap_adaptor.Adaptor.Deposit.Received.{less_fee}
use sns_kongswap_adaptor.Adaptor.Writes.{
  Returned, ShowBoth, to_owner, return_remaining_assets_to_owner-Writes,
}
use sns_kongswap_adaptor.Adaptor.Writes.Dex.{
  Taken, dex_updates, AtDex, receipts, transfer_from_owner-Writes, deposit_into_dex-Writes,
}

-- The updates of a deposit in their order: both receipts, the part at the DEX, and both returns, of
-- the two assets of the books.
abbrev pub deposit_updates :
    ValidatedAsset × ValidatedAsset
    → ValidatedAllowance
    → ValidatedAllowance
    → ℕ × ℕ
    → ℕ × ℕ
    → ℕ × ℕ
    → ℕ × ℕ
    → List Update
deposit_updates pair a b n before after returned =
    receipts a b
    ++ (dex_updates a b n before after
        ++ (to_owner pair.0 returned.0 ++ to_owner pair.1 returned.1))

-- The amounts are tied to the answers: what the DEX takes to what it has replied, and the compared
-- and the returned amounts to what the ledgers show.
abbrev pub IsDeposited :
    {W : Type 0}
    → Env W
    → ValidatedAsset × ValidatedAsset
    → ValidatedAllowance
    → ValidatedAllowance
    → List Update
    → Type 0
IsDeposited env pair a b us =
    (n before after returned : ℕ × ℕ) × Taken env (less_fee (less_fee a)) (less_fee (less_fee b)) n
    × ShowBoth env pair (ok before)
    × ShowBoth env pair (ok after)
    × ShowBoth env pair (ok returned)
    × (us ≡ deposit_updates pair a b n before after returned)

module _ {pair : ValidatedAsset × ValidatedAsset} {W : Type 0} (env : Env W)
    (a b : ValidatedAllowance) where
  -- The end of a deposit: both parts have come to an end without an error, or it fails.
  deposited-Writes :
      (x y : Result (Unit {0}) (List Error)) (us vs : List Update)
      → OnOk (λ u ws. AtDex env pair (less_fee a) (less_fee b) ws) x us
      → OnOk (λ u ws. Returned env pair ws) y vs
      → Writes Unit pair
          (λ r ws.
            OnOk (λ s ts. IsDeposited env pair a b ts) r (receipts a b ++ (us ++ (vs ++ ws))))
          (deposited {W = W} x y)
  deposited-Writes (ok u) (ok v) us vs (n, before, after, t, shown, shown', h)
        (n_0, n_1, first, second, k) =
      weaken
        (λ r ws e.
          OnOk-all _ _
            (λ s. (
              n,
              before,
              after,
              (n_0, n_1),
              t,
              shown,
              shown',
              (first, second),
              simp (h, k, e.0, append-nil),
            ))
            r)
        get_cached_balances-Writes
  deposited-Writes (ok u) (err e) us vs h k = throw-Writes _ tt
  deposited-Writes (err e) (ok v) us vs h k = throw-Writes _ tt
  deposited-Writes (err e) (err e') us vs h k = throw-Writes _ tt

module _ {pair : ValidatedAsset × ValidatedAsset} {W : Type 0} (env : Env W) (quiet : IsQuiet env)
    (a b : ValidatedAllowance) where
  deposit_impl-Writes :
      Writes Unit pair (OnOk (λ v us. IsDeposited env pair a b us)) (deposit_impl env a b)
  unfolding deposit_impl
  deposit_impl-Writes =
      known-then _ (map_fail-OnOk one (transfer_from_owner-Writes env quiet a b)) (
        bind-Writes
          (attempt-Writes
            {R = Attempted (OnOk (λ u us. AtDex env pair (less_fee a) (less_fee b) us))}
            (deposit_into_dex-Writes env quiet (less_fee a) (less_fee b)))
          (λ x us h.
            bind-Writes
              (attempt-Writes {R = Attempted (OnOk (λ u us. Returned env pair us))}
                (return_remaining_assets_to_owner-Writes env quiet _ _))
              (λ y vs k. deposited-Writes env a b x y us vs h k) (λ es vs k. tt))
          (λ es us h. tt))

module _ {W : Type 0} where
  deposited-Answers : (x y : Result (Unit {0}) (List Error)) → Answers (deposited {W = W} x y)
  deposited-Answers (ok u) (ok v) = get_cached_balances-Answers
  deposited-Answers (ok u) (err e) = throw-Answers _
  deposited-Answers (err e) (ok v) = throw-Answers _
  deposited-Answers (err e) (err e') = throw-Answers _

pub initialized_eq : {a b : ValidatedBalances} → initialized a ≡ initialized b → a ≡ b
initialized_eq h = cc

deposit_impl-Answers :
    {W : Type 0} (env : Env W) (a b : ValidatedAllowance) → Answers (deposit_impl env a b)
unfolding deposit_impl
deposit_impl-Answers env a b =
    bind-Answers _ _ (λ v. bind-Answers _ _ (λ x. bind-Answers _ _ (λ y. deposited-Answers x y)))

-- Where a deposit succeeds while no other message changes the books, it answers with the books that
-- it leaves, and they come from those before by exactly the updates of a deposit.
pub deposit_impl-IsDeposited :
    {W : Type 0} (env : Env W) (a b : ValidatedAllowance) (m : Machine W)
    (before after : ValidatedBalances)
    → IsQuiet env
    → m.canister.balances ≡ initialized before
    → (deposit_impl env a b m).0 ≡ done after
    → (us : List Update) × IsDeposited env (assets_of before) a b us
      × (after ≡ apply_all us before)
      × ((deposit_impl env a b m).1.canister.balances ≡ initialized after)
deposit_impl-IsDeposited env a b m before after quiet e h =
    let answered = (deposit_impl-Answers env a b).at m after h in
    let post = (deposit_impl-Writes {pair = assets_of before} env quiet a b).at m before e refl in
    let (us, deposited_, books, kept) =
      subst
        (λ r.
          Post (assets_of before) Unit (OnOk (λ v us. IsDeposited env (assets_of before) a b us))
            before r (deposit_impl env a b m).1.canister.balances)
        h post in
    (us, deposited_, initialized_eq (sym answered ∙ books), answered)
