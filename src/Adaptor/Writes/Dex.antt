-- ===== src/Adaptor/Writes/Dex.antt =====
-- What the parts of a deposit write into the books.
use mathlib.Core.Path.{subst}
use sns_kongswap_adaptor.Base.{ℕ, ◌≡◌, refl, ◌⊎◌, inl, inr, sym, ap, List, [], ◌∷◌, ◌++◌}
use sns_kongswap_adaptor.Base.Text.{Text}
use sns_kongswap_adaptor.Base.Result.{Result, ok, err, map_err}
use sns_kongswap_adaptor.Arithmetics.{saturating_add, logged_saturating_sub}
use sns_kongswap_adaptor.Sns.{Error}
use sns_kongswap_adaptor.Validation.Asset.{ValidatedAsset}
use sns_kongswap_adaptor.Validation.Allowance.{ValidatedAllowance}
use sns_kongswap_adaptor.Balances.{Party}
use sns_kongswap_adaptor.Balances.Bounds.{Update, apply, apply_all}
use sns_kongswap_adaptor.Machine.{Env, Action, ◌>>=◌}
use sns_kongswap_adaptor.Machine.Emit.Quiet.{IsQuiet}
use sns_kongswap_adaptor.Machine.Writes.{
  Writes, Nothing, OnOk, OnOk-all, OnOk-map, pure-Writes, throw-Writes, if-Writes, weaken,
  bind-Writes, then-Writes,
}
use sns_kongswap_adaptor.Machine.Writes.Nothing.{next_operation-Nothing, nothing_rules}
use sns_kongswap_adaptor.Agent.{
  Reply, add_pool, add_liquidity_amounts, add_liquidity, AddPoolArgs, AddLiquidityArgs,
  AddLiquidityAmountsArgs,
}
use sns_kongswap_adaptor.Validation.Asset.{decode_nat_to_u64}
use sns_kongswap_adaptor.Base.{none, some}
use sns_kongswap_adaptor.Adaptor.Kong.{token_of}
use sns_kongswap_adaptor.Machine.Writes.{lift-Writes}
use sns_kongswap_adaptor.Machine.Writes.Learns.{Said, Learns, learn-then, attempt_then, emit-Learns}
use sns_kongswap_adaptor.Machine.Writes.Yields.{
  Books-Yields, then-Yields, known-then, update-then, update-last, map_fail-OnOk,
}
use sns_kongswap_adaptor.Adaptor.State.{find_discrepency, move_asset}
use sns_kongswap_adaptor.Adaptor.Deposit.{
  one, set_dex_allowances, topup_pool, is_pool_already_deployed_error, add_pool_action,
  check_deposit, pool_amounts, deposit_into_dex, transfer_from_owner,
}
use sns_kongswap_adaptor.Adaptor.Deposit.Received.{
  less_fee, transfer_from_owner_impl-Books, set_dex_allowances_impl-Books,
}
use sns_kongswap_adaptor.Adaptor.Writes.{
  ShowBoth, lp_token-Nothing, maybe_add_token-Nothing, get_ledger_balances-Nothing,
  get_ledger_balances-Learns,
}

-- Both receipts.
abbrev pub receipts : ValidatedAllowance → ValidatedAllowance → List Update
receipts a b =
    Update.credit a.asset a.amount_decimals
    ∷ Update.charge a.asset
    ∷ Update.credit b.asset b.amount_decimals
    ∷ Update.charge b.asset
    ∷ []

-- What a transfer by the DEX leaves of an allowance.
abbrev pub net : ValidatedAllowance → ℕ
net a = logged_saturating_sub a.amount_decimals a.asset.ledger_fee_decimals

abbrev pub new_pool : ValidatedAllowance → ValidatedAllowance → AddPoolArgs
new_pool a b = record {
  token_0 = token_of a.asset.ledger_canister_id;
  amount_0 = net a;
  tx_id_0 = none;
  token_1 = token_of b.asset.ledger_canister_id;
  amount_1 = net b;
  tx_id_1 = none;
  lp_fee_bps = some 30;
}

abbrev pub estimate : ValidatedAllowance → ValidatedAllowance → AddLiquidityAmountsArgs
estimate a b = record {
  token_0 = token_of a.asset.ledger_canister_id;
  amount = net a;
  token_1 = token_of b.asset.ledger_canister_id;
}

abbrev pub top_up : ValidatedAllowance → ValidatedAllowance → ℕ → AddLiquidityArgs
top_up a b amount_1 = record {
  token_0 = token_of a.asset.ledger_canister_id;
  amount_0 = net a;
  tx_id_0 = none;
  token_1 = token_of b.asset.ledger_canister_id;
  amount_1 = amount_1;
  tx_id_1 = none;
}

-- The DEX has added a new pool of both allowances, less a fee each.
abbrev pub Added : {W : Type 0} → Env W → ValidatedAllowance → ValidatedAllowance → Type 0
Added env a b =
    (reply : Reply (add_pool (new_pool a b))) × Said env env.kong_backend_canister_id
      (add_pool (new_pool a b)) (ok reply)

-- The DEX has added to a pool the first allowance, less a fee, and `m` of the second asset, which it
-- has estimated for that.
abbrev pub ToppedUp : {W : Type 0} → Env W → ValidatedAllowance → ValidatedAllowance → ℕ → Type 0
ToppedUp env a b m =
    (estimated : Reply (add_liquidity_amounts (estimate a b))) × Said env
      env.kong_backend_canister_id (add_liquidity_amounts (estimate a b)) (ok estimated)
    × (reply : Reply (add_liquidity (top_up a b estimated.amount_1))) × Said env
        env.kong_backend_canister_id (add_liquidity (top_up a b estimated.amount_1)) (ok reply)
    × (decode_nat_to_u64 env.display estimated.amount_1 ≡ ok m)

-- The amounts that the DEX takes: those of a new pool are the whole allowances; a top-up of a pool
-- takes what it is given and a fee each.
abbrev pub Taken : {W : Type 0} → Env W → ValidatedAllowance → ValidatedAllowance → ℕ × ℕ → Type 0
Taken env a b n =
    (Added env a b × (n ≡ (a.amount_decimals, b.amount_decimals)))
    ⊎ ((m : ℕ) × ToppedUp env a b m
        × (n ≡ (
          saturating_add (net a) a.asset.ledger_fee_decimals,
          saturating_add m b.asset.ledger_fee_decimals,
        )))

abbrev AddedIfOk :
    {W : Type 0}
    → Env W
    → ValidatedAllowance
    → ValidatedAllowance
    → Result (Unit {0}) Error
    → Type 0
AddedIfOk env a b (ok u) = Added env a b
AddedIfOk env a b (err e) = Unit

map_err-ok : {A E F : Type 0} (f : E → F) (x : Result A E) (a : A) → map_err f x ≡ ok a → x ≡ ok a
map_err-ok f (ok b) a h = cc
map_err-ok f (err e) a h = cc

-- The comparison of the ledger balances before and after.
abbrev pub checks : ValidatedAllowance → ValidatedAllowance → ℕ × ℕ → ℕ × ℕ → ℕ × ℕ → List Update
checks a b before after n =
    Update.deposit_check a.asset before.0 after.0 n.0
    ∷ Update.deposit_check b.asset before.1 after.1 n.1
    ∷ []

module _ {pair : ValidatedAsset × ValidatedAsset} {W : Type 0} (env : Env W) (quiet : IsQuiet env)
    (a b : ValidatedAllowance) where
  check_deposit-Writes :
      (x y : ℕ × ℕ) (n m : ℕ)
      → Writes Unit pair (OnOk (λ v us. us ≡ checks a b x y (n, m))) (check_deposit env a b x y n m)
  unfolding check_deposit find_discrepency apply
  check_deposit-Writes x y n m =
      update-then (Update.deposit_check a.asset x.0 y.0 n) _ tt (λ e. tt)
        (update-last (Update.deposit_check b.asset x.1 y.1 m) tt (OnOk-all _ _ (λ v. refl)))

  topup_pool-Writes :
      Writes Unit pair (OnOk (λ n us. (us ≡ []) × Taken env a b n)) (topup_pool env a b)
  unfolding topup_pool
  topup_pool-Writes =
      then-Writes next_operation-Nothing (λ e. tt)
        (λ op.
          learn-then _
            (emit-Learns env quiet op env.kong_backend_canister_id
              (add_liquidity_amounts (estimate a b)) _)
            (λ e h. tt)
            (λ estimated h.
              then-Writes next_operation-Nothing (λ e. tt)
                (λ op'.
                  learn-then _
                    (emit-Learns env quiet op' env.kong_backend_canister_id
                      (add_liquidity (top_up a b estimated.amount_1)) _)
                    (λ e k. tt)
                    (λ reply k.
                      let y =
                        map_err env.errors.new_postcondition
                          (decode_nat_to_u64 env.display estimated.amount_1) in
                      learn-then {K = λ r. y ≡ r} _ (lift-Writes y (refl, refl)) (λ e l. tt)
                        (λ m l.
                          pure-Writes _
                            (refl, inr (m, (estimated, h, reply, k, map_err-ok _ _ m l), refl)))))))

  add_pool_action-Learns : Writes Unit pair (Learns (AddedIfOk env a b)) (add_pool_action env a b)
  unfolding add_pool_action
  add_pool_action-Learns =
      then-Writes (maybe_add_token-Nothing env quiet _) (λ e. (refl, tt))
        (λ u.
          then-Writes (maybe_add_token-Nothing env quiet _) (λ e. (refl, tt))
            (λ v.
              then-Writes next_operation-Nothing (λ e. (refl, tt))
                (λ op.
                  learn-then _
                    (emit-Learns env quiet op env.kong_backend_canister_id (add_pool (new_pool a b))
                      _)
                    (λ e h. (refl, tt)) (λ reply h. pure-Writes _ (refl, (reply, h))))))

  is_pool_already_deployed_error-Nothing :
      (message : Text) → Writes Unit pair Nothing (is_pool_already_deployed_error env message)
  unfolding is_pool_already_deployed_error
  is_pool_already_deployed_error-Nothing message = search (nothing_rules, lp_token-Nothing) depth 8

  set_dex_allowances-Writes :
      Writes Unit pair
        (OnOk (λ v us.
          (v ≡ ((less_fee a).amount_decimals, (less_fee b).amount_decimals))
          × (us ≡ Update.charge a.asset ∷ Update.charge b.asset ∷ [])))
        (set_dex_allowances env a b)
  unfolding set_dex_allowances apply apply_all
  set_dex_allowances-Writes =
      then-Yields _
        (Books-Yields (Update.charge a.asset ∷ []) (tt, tt)
          (set_dex_allowances_impl-Books env quiet a))
        (λ e. tt)
        (then-Yields _
          (Books-Yields (Update.charge b.asset ∷ []) (tt, tt)
            (set_dex_allowances_impl-Books env quiet b))
          (λ e. tt) (pure-Writes _ (refl, refl)))

  pub transfer_from_owner-Writes :
      Writes Unit pair
        (OnOk (λ v us. (v ≡ (less_fee a, less_fee b)) × (us ≡ receipts a b)))
        (transfer_from_owner env a b)
  unfolding transfer_from_owner apply apply_all
  transfer_from_owner-Writes =
      let us : ValidatedAllowance → List Update =
        λ c. Update.credit c.asset c.amount_decimals ∷ Update.charge c.asset ∷ [] in
      then-Yields _
        (Books-Yields (us a) (tt, (tt, tt)) (transfer_from_owner_impl-Books env quiet a)) (λ e. tt)
        (then-Yields _
          (Books-Yields (us b) (tt, (tt, tt)) (transfer_from_owner_impl-Books env quiet b))
          (λ e. tt) (pure-Writes _ (refl, refl)))

  pool_amounts-Writes :
      (x : ℕ × ℕ) (r : Result (Unit {0}) Error)
      → AddedIfOk env a b r
      → Writes Unit pair (OnOk (λ n us. (us ≡ []) × Taken env a b n)) (pool_amounts env a b x r)
  unfolding pool_amounts
  pool_amounts-Writes x (ok added) said = pure-Writes _ (refl, inl (said, refl))
  pool_amounts-Writes x (err e) said =
      then-Writes (is_pool_already_deployed_error-Nothing e.message) (λ es. tt)
        (λ deployed. if-Writes deployed (map_fail-OnOk one topup_pool-Writes) (
          then-Writes (get_ledger_balances-Nothing env quiet) (λ es. tt)
            (λ y.
              bind-Writes (check_deposit-Writes x y 0 0) (λ v us h. throw-Writes _ tt)
                (λ es us h. tt))))

-- What follows an action that writes nothing and whose value is in a relation.
known_amounts :
    {pair : ValidatedAsset × ValidatedAsset} {W A B E : Type 0} {K : A → Type 0}
    {Q : B → List Update → Type 0} {x : Action W A E} (us : List Update) (k : A → Action W B E)
    → Writes Unit pair (OnOk (λ a vs. (vs ≡ []) × K a)) x
    → ((a : A) → K a → Writes Unit pair (λ r vs. OnOk Q r (us ++ vs)) (k a))
    → Writes Unit pair (λ r vs. OnOk Q r (us ++ vs)) (x >>= k)
known_amounts {pair} {Q} us k h next =
    bind-Writes h
      (λ a vs e.
        subst (λ vs. Writes Unit pair (λ r ws. OnOk Q r (us ++ (vs ++ ws))) (k a)) (sym e.0)
          (next a e.1))
      (λ e vs h. tt)

-- The part of a deposit at the DEX: both approvals, what the DEX takes, and the comparison of the
-- ledger balances.
abbrev pub dex_updates :
    ValidatedAllowance → ValidatedAllowance → ℕ × ℕ → ℕ × ℕ → ℕ × ℕ → List Update
dex_updates a b n before after =
    Update.charge a.asset
    ∷ Update.charge b.asset
    ∷ Update.move a.asset Party.treasury_manager Party.external n.0
    ∷ Update.move b.asset Party.treasury_manager Party.external n.1
    ∷ checks a b before after n

-- The compared amounts are what the ledgers show.
abbrev pub AtDex :
    {W : Type 0}
    → Env W
    → ValidatedAsset × ValidatedAsset
    → ValidatedAllowance
    → ValidatedAllowance
    → List Update
    → Type 0
AtDex env pair a b us =
    (n before after : ℕ × ℕ) × Taken env (less_fee a) (less_fee b) n
    × ShowBoth env pair (ok before)
    × ShowBoth env pair (ok after)
    × (us ≡ dex_updates a b n before after)

module _ {pair : ValidatedAsset × ValidatedAsset} {W : Type 0} (env : Env W) (quiet : IsQuiet env)
    (a b : ValidatedAllowance) where
  pub deposit_into_dex-Writes :
      Writes Unit pair (OnOk (λ v us. AtDex env pair a b us)) (deposit_into_dex env a b)
  unfolding deposit_into_dex move_asset apply
  deposit_into_dex-Writes =
      known-then _ (map_fail-OnOk one (set_dex_allowances-Writes env quiet a b)) (
        learn-then _ (get_ledger_balances-Learns env quiet) (λ e h. tt)
          (λ x shown.
            attempt_then _ (add_pool_action-Learns env quiet (less_fee a) (less_fee b)) (λ r said.
              known_amounts (Update.charge a.asset ∷ Update.charge b.asset ∷ []) _
                (pool_amounts-Writes env quiet (less_fee a) (less_fee b) x r said)
                (λ n t.
                  update-then (Update.move a.asset Party.treasury_manager Party.external n.0) _ tt
                    (λ e. tt)
                    (update-then (Update.move b.asset Party.treasury_manager Party.external n.1) _
                      tt (λ e. tt)
                      (learn-then _ (get_ledger_balances-Learns env quiet) (λ e h. tt)
                        (λ y shown'.
                          weaken
                            (λ r us.
                              OnOk-map _ _ _ _ (λ v h. (n, x, y, t, shown, shown', ap (booked n) h))
                                r)
                            (check_deposit-Writes env quiet (less_fee a) (less_fee b) x y n.0
                              n.1))))))))
    where
      booked : ℕ × ℕ → List Update → List Update
      booked n us =
          Update.charge a.asset
          ∷ Update.charge b.asset
          ∷ Update.move a.asset Party.treasury_manager Party.external n.0
          ∷ Update.move b.asset Party.treasury_manager Party.external n.1
          ∷ us
