-- ===== src/Machine/Writes/Yields.antt =====
-- Actions whose value and updates are known, where they succeed.
use mathlib.Core.Path.{subst}
use sns_kongswap_adaptor.Base.{◌≡◌, refl, ◌∙◌, sym, ap, List, [], ◌∷◌, ◌++◌, arith}
use sns_kongswap_adaptor.Base.Result.{Result, ok, err}
use sns_kongswap_adaptor.Validation.Asset.{ValidatedAsset}
use sns_kongswap_adaptor.Balances.{
  ValidatedBalances, ValidatedBalanceBook, set_external_custodian_balance, add_manager_balance,
  move_asset, charge_approval_fee, find_deposit_discrepency, find_withdraw_discrepency, update_book,
}
use sns_kongswap_adaptor.Balances.Bounds.{Update, apply, apply_all}
use sns_kongswap_adaptor.Balances.Each.{IsOrdinary, AllOrdinary}
use sns_kongswap_adaptor.Machine.State.{ConfigState, initialized}
use sns_kongswap_adaptor.Machine.Run.{
  Flow, done, fail, trapped, Action, ◌>>=◌, map_balances, map_fail, with_balances_mut,
}
use sns_kongswap_adaptor.Machine.Emit.Quiet.{Books, Booked}
use sns_kongswap_adaptor.Machine.Writes.{
  assets_of, IsBooking, Writes, Post, OnOk, Recast, weaken, map_fail-Writes, bind-Writes,
}
use sns_kongswap_adaptor.Machine.Writes.Nothing.{update-Writes}

-- The value `v` and the updates `vs`; or an error, and no update.
abbrev pub Yields : {A E : Type 0} → A → List Update → Result A E → List Update → Type 0
Yields v vs (ok a) us = (a ≡ v) × (us ≡ vs)
Yields v vs (err e) us = us ≡ []

update_book-assets :
    (a : ValidatedAsset) (f : ValidatedBalanceBook → ValidatedBalanceBook) (b : ValidatedBalances)
    → assets_of (update_book a f b) ≡ assets_of b
unfolding update_book
update_book-assets a f b = ground arith

-- All updates but the refresh of the metadata leave the assets alone.
ordinary-IsBooking : (u : Update) → IsOrdinary u → IsBooking u
unfolding apply set_external_custodian_balance add_manager_balance move_asset charge_approval_fee
    find_deposit_discrepency find_withdraw_discrepency
ordinary-IsBooking (Update.refresh i a) h b = elim h [ ]
ordinary-IsBooking (Update.external a n) h b = update_book-assets a _ b
ordinary-IsBooking (Update.credit a n) h b = update_book-assets a _ b
ordinary-IsBooking (Update.move a from to n) h b = update_book-assets a _ b
ordinary-IsBooking (Update.charge a) h b = update_book-assets a _ b
ordinary-IsBooking (Update.deposit_check a x y z) h b = update_book-assets a _ b
ordinary-IsBooking (Update.withdraw_check a x y z) h b = update_book-assets a _ b

AllOrdinary-assets :
    (us : List Update) (b : ValidatedBalances)
    → AllOrdinary us
    → assets_of (apply_all us b) ≡ assets_of b
unfolding apply_all
AllOrdinary-assets [] b h = refl
AllOrdinary-assets (u ∷ us) b h = AllOrdinary-assets us (apply u b) h.1 ∙ ordinary-IsBooking u h.0 b

module _ {pair : ValidatedAsset × ValidatedAsset} {W A E : Type 0} where
  -- What is booked is written.
  pub Books-Yields :
      (us : List Update) {v : A} {x : Action W A E}
      → AllOrdinary us
      → Books (apply_all us) v x
      → Writes Unit pair (Yields v us) x
  unfolding apply_all
  Books-Yields us {v} {x} ordinary h = record {
    at = λ m b e p. by_flow m.canister.balances b (x m).0 (x m).1.canister.balances e p (h.at m);
  }
    where
      by_flow :
          (s : ConfigState) (b : ValidatedBalances) (r : Flow A E) (after : ConfigState)
          → s ≡ initialized b
          → assets_of b ≡ pair
          → Booked (apply_all us) v s r after
          → Post pair Unit (Yields v us) b r after
      by_flow s b (done a) after e p (i, j) = (
        us,
        (i, refl),
        j ∙ ap (map_balances (apply_all us)) e,
        AllOrdinary-assets us b ordinary ∙ p,
      )
      by_flow s b (fail x') after e p i = ([], refl, i ∙ e, p)
      by_flow s b trapped after e p i = tt

module _ {T : Type 0} {pair : ValidatedAsset × ValidatedAsset} {W A B E : Type 0} where
  pub then-Yields :
      {v : A} {us : List Update} {S : Result B E → List Update → Type 0} {x : Action W A E}
      (k : A → Action W B E)
      → Writes T pair (Yields v us) x
      → ((e : E) → S (err e) [])
      → Writes T pair (λ r vs. S r (us ++ vs)) (k v)
      → Writes T pair S (x >>= k)
  then-Yields {v} {us} {S} k h failed next =
      bind-Writes h
        (λ a ws e.
          subst (λ ws. Writes T pair (λ r vs. S r (ws ++ vs)) (k a)) (sym e.1)
            (subst (λ a. Writes T pair (λ r vs. S r (us ++ vs)) (k a)) (sym e.0) next))
        (λ e ws h. subst (λ ws. S (err e) ws) (sym h) (failed e))

  -- A value and updates that are known where there is no error.
  pub known-then :
      {v : A} {us : List Update} {Q : B → List Update → Type 0} {x : Action W A E}
      (k : A → Action W B E)
      → Writes T pair (OnOk (λ a ws. (a ≡ v) × (ws ≡ us))) x
      → Writes T pair (λ r vs. OnOk Q r (us ++ vs)) (k v)
      → Writes T pair (OnOk Q) (x >>= k)
  known-then {v} {us} {Q} k h next =
      bind-Writes h
        (λ a ws e.
          subst (λ ws. Writes T pair (λ r vs. OnOk Q r (ws ++ vs)) (k a)) (sym e.1)
            (subst (λ a. Writes T pair (λ r vs. OnOk Q r (us ++ vs)) (k a)) (sym e.0) next))
        (λ e ws h. tt)

module _ {T : Type 0} {pair : ValidatedAsset × ValidatedAsset} {W B E : Type 0} where
  pub update-then :
      {S : Result B E → List Update → Type 0} (u : Update) (k : Unit {0} → Action W B E)
      → IsOrdinary u
      → ((e : E) → S (err e) (u ∷ []))
      → Writes T pair (λ r vs. S r (u ∷ vs)) (k tt)
      → Writes T pair S (with_balances_mut (apply u) >>= k)
  update-then {S} u k h failed next =
      bind-Writes (update-Writes u (ordinary-IsBooking u h))
        (λ a ws e. subst (λ ws. Writes T pair (λ r vs. S r (ws ++ vs)) (k a)) (sym e) next)
        (λ e ws h. subst (λ ws. S (err e) ws) (sym h) (failed e))

module _ {T : Type 0} {pair : ValidatedAsset × ValidatedAsset} {W E : Type 0} where
  -- The last update.
  pub update-last :
      {R : Result (Unit {0}) E → List Update → Type 0} (u : Update)
      → IsOrdinary u
      → ((r : Result (Unit {0}) E) → R r (u ∷ []))
      → Writes T pair R (with_balances_mut {W = W} (apply u))
  update-last {R} u h reached =
      weaken (λ r us e. subst (λ us. R r us) (sym e) (reached r))
        (update-Writes u (ordinary-IsBooking u h))

module _ {T : Type 0} {pair : ValidatedAsset × ValidatedAsset} {W A B E : Type 0} where
  pub map_fail-OnOk :
      (f : E → B) {Q : A → List Update → Type 0} {x : Action W A E}
      → Writes T pair (OnOk Q) x
      → Writes T pair (OnOk Q) (map_fail f x)
  map_fail-OnOk f {Q} h = map_fail-Writes f (weaken passed h)
    where
      passed : (r : Result A E) (us : List Update) → OnOk Q r us → Recast f (OnOk Q) r us
      passed (ok a) us h = h
      passed (err e) us h = tt
