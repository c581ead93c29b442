-- ===== src/Adaptor/Writes/Removed.antt =====
-- What the removal of the liquidity, `withdraw_from_dex`, writes into the books.
use sns_kongswap_adaptor.Base.{ℕ, ◌≡◌, ◌⊎◌, Bool, true, false, ltb, List, [], ◌∷◌, ◌++◌}
use sns_kongswap_adaptor.Base.Result.{Result, ok, err}
use sns_kongswap_adaptor.Arithmetics.{logged_saturating_add}
use sns_kongswap_adaptor.Sns.{Error}
use sns_kongswap_adaptor.Validation.Asset.{ValidatedAsset, symbol_text, decode_nat_to_u64}
use sns_kongswap_adaptor.Balances.{Party}
use sns_kongswap_adaptor.Balances.Bounds.{Update}
use sns_kongswap_adaptor.Agent.{Reply, remove_liquidity, RemoveLiquidityArgs}
use sns_kongswap_adaptor.Machine.{Env, Machine, Action, done, ◌>>◌}
use sns_kongswap_adaptor.Machine.Writes.{Writes, Nothing}
use sns_kongswap_adaptor.Machine.Writes.Learns.{Said, Learns}
use sns_kongswap_adaptor.Adaptor.Kong.{lp_balance}
use sns_kongswap_adaptor.Adaptor.Writes.{ShowBoth}

-- What a run of an action that writes nothing has come to.
abbrev CameTo : {W A E : Type 0} → Action W A E → Result A E → Type 0
CameTo {W} x (ok a) = (m : Machine W) × ((x m).0 ≡ done a)
CameTo x (err e) = Unit

-- What one asset brings: nothing where its ledger shows no more than before; otherwise the comparison
-- and the movement to the manager of the amount and the fee of the liquidity that the DEX has replied.
abbrev pub Brings :
    {W : Type 0} → Env W → Bool → ValidatedAsset → ℕ → ℕ → ℕ → ℕ → List Update → Type 0
Brings env true a before after amount lp_fee us =
    (n m : ℕ) × (decode_nat_to_u64 env.display amount ≡ ok n)
    × (decode_nat_to_u64 env.display lp_fee ≡ ok m)
    × (us
        ≡ Update.withdraw_check a before after (logged_saturating_add n m)
          ∷ Update.move a Party.external Party.treasury_manager (logged_saturating_add n m)
          ∷ [])
Brings env false a before after amount lp_fee us = us ≡ []

abbrev pub removal : ValidatedAsset × ValidatedAsset → ℕ → RemoveLiquidityArgs
removal pair amount = record {
  token_0 = symbol_text pair.0;
  token_1 = symbol_text pair.1;
  remove_lp_token_amount = amount;
}

abbrev Brought : {W : Type 0} → Env W → ValidatedAsset × ValidatedAsset → ℕ → List Update → Type 0
Brought env pair lp us =
    (before after : ℕ × ℕ) × (reply : Reply (remove_liquidity (removal pair lp))) × (us_0
      us_1 : List Update)
    × ShowBoth env pair (ok before)
    × Said env env.kong_backend_canister_id (remove_liquidity (removal pair lp)) (ok reply)
    × ShowBoth env pair (ok after)
    × Brings env (ltb before.0 after.0) pair.0 before.0 after.0 reply.amount_0 reply.lp_fee_0 us_0
    × Brings env (ltb before.1 after.1) pair.1 before.1 after.1 reply.amount_1 reply.lp_fee_1 us_1
    × (us ≡ us_0 ++ us_1)

-- The updates of a removal: none where the DEX shows no liquidity, and otherwise what both assets bring.
abbrev pub IsRemoved : {W : Type 0} → Env W → ValidatedAsset × ValidatedAsset → List Update → Type 0
IsRemoved {W} env pair us =
    (lp : ℕ) × (m : Machine W) × ((lp_balance {E = List Error} env m).0 ≡ done lp)
    × (((lp ≡ 0) × (us ≡ [])) ⊎ Brought env pair lp us)
