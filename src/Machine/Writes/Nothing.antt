-- ===== src/Machine/Writes/Nothing.antt =====
-- Actions that write nothing, and the single updates.
use sns_kongswap_adaptor.Base.{◌≡◌, refl, ◌∙◌, ap, List, [], ◌∷◌}
use sns_kongswap_adaptor.Base.Text.{Text}
use sns_kongswap_adaptor.Base.Result.{Result, ok, err}
use sns_kongswap_adaptor.Sns.{Principal, Error, TreasuryManagerOperation}
use sns_kongswap_adaptor.Validation.Asset.{ValidatedAsset}
use sns_kongswap_adaptor.Balances.{ValidatedBalances}
use sns_kongswap_adaptor.Balances.Bounds.{Update, apply, apply_all}
use sns_kongswap_adaptor.Agent.{Request, Reply}
use sns_kongswap_adaptor.Machine.State.{ConfigState, initialized, Env}
use sns_kongswap_adaptor.Machine.Run.{
  Flow, done, fail, trapped, Action, pure, throw, lift, ◌>>=◌, map_fail, attempt, now,
  next_operation, with_balances_mut, map_balances, get_cached_balances,
}
use sns_kongswap_adaptor.Machine.Emit.{emit_transaction}
use sns_kongswap_adaptor.Machine.Emit.Quiet.{IsQuiet, Undisturbed, emitted}
use sns_kongswap_adaptor.Machine.Writes.{
  assets_of, IsBooking, Post, Writes, Nothing, OnOk, Recast, pure-Writes, throw-Writes, lift-Writes,
  if-Writes, weaken, bind-Writes, map_fail-Writes, attempt-Writes, then-Writes,
}

module _ {T : Type 0} {pair : ValidatedAsset × ValidatedAsset} {W A B E : Type 0} where
  -- Two actions that write nothing.
  pub bind-Nothing :
      {x : Action W A E} {k : A → Action W B E}
      → Writes T pair Nothing x
      → ((a : A) → Writes T pair Nothing (k a))
      → Writes T pair Nothing (x >>= k)
  bind-Nothing h next = then-Writes h (λ e. refl) next

  pub attempt-Nothing :
      {x : Action W A E} → Writes T pair Nothing x → Writes T pair Nothing (attempt {B = B} x)
  attempt-Nothing h = attempt-Writes h

  pub map_fail-Nothing :
      (f : E → B) {x : Action W A E}
      → Writes T pair Nothing x
      → Writes T pair Nothing (map_fail f x)
  map_fail-Nothing f h = map_fail-Writes f (weaken (recast-Nothing f) h)
    where
      recast-Nothing :
          (f : E → B) (r : Result A E) (us : List Update) → us ≡ [] → Recast f Nothing r us
      recast-Nothing f (ok a) us h = h
      recast-Nothing f (err e) us h = h

module _ {T : Type 0} {pair : ValidatedAsset × ValidatedAsset} {W A E : Type 0} where
  pub pure-Nothing : (a : A) → Writes T pair Nothing (pure {W = W} {E = E} a)
  pure-Nothing a = pure-Writes a refl

  pub throw-Nothing : (e : E) → Writes T pair Nothing (throw {W = W} {A = A} e)
  throw-Nothing e = throw-Writes e refl

  pub lift-Nothing : (r : Result A E) → Writes T pair Nothing (lift {W = W} r)
  lift-Nothing r = lift-Writes r refl

module _ {T : Type 0} {pair : ValidatedAsset × ValidatedAsset} {W E : Type 0} where
  pub now-Nothing : (env : Env W) → Writes T pair Nothing (now {E = E} env)
  unfolding now apply_all
  now-Nothing env = record { at = λ m b e p. ([], refl, e, p) }

  pub next_operation-Nothing : Writes T pair Nothing (next_operation {W = W} {E = E})
  unfolding next_operation apply_all
  next_operation-Nothing = record { at = λ m b e p. ([], refl, e, p) }

  -- The books are there.
  pub get_cached_balances-Writes :
      Writes T pair
        (λ r us. (us ≡ []) × OnOk (λ b vs. assets_of b ≡ pair) r us)
        (get_cached_balances {W = W} {E = E})
  unfolding get_cached_balances pure apply_all
  get_cached_balances-Writes = record { at = λ m b e p. rw e ([], (refl, p), refl, p) }

  pub update-Writes :
      (u : Update)
      → IsBooking u
      → Writes T pair (λ r us. us ≡ u ∷ []) (with_balances_mut {W = W} {E = E} (apply u))
  unfolding with_balances_mut apply_all
  update-Writes u keeps = record {
    at = λ m b e p. (u ∷ [], refl, ap (λ s. map_balances (apply u) s) e, keeps b ∙ p);
  }

module _ {pair : ValidatedAsset × ValidatedAsset} {W : Type 0} (env : Env W)
    (quiet : IsQuiet env) where
  pub emit-Nothing :
      (op : TreasuryManagerOperation) (p : Principal) (r : Request) (purpose : Text)
      → Writes Unit pair Nothing (emit_transaction env op p r purpose)
  unfolding apply_all
  emit-Nothing op p r purpose = record {
    at = λ m b e q.
        by_flow b (emit_transaction env op p r purpose m).0 m.canister.balances
          (emit_transaction env op p r purpose m).1.canister.balances
          (emitted env quiet op p r purpose m) e q;
  }
    where
      by_flow :
          (b : ValidatedBalances) (f : Flow (Reply r) Error) (before after : ConfigState)
          → Undisturbed before f after
          → before ≡ initialized b
          → assets_of b ≡ pair
          → Post pair Unit Nothing b f after
      by_flow b (done a) before after h e q = ([], refl, h ∙ e, q)
      by_flow b (fail x) before after h e q = ([], refl, h ∙ e, q)
      by_flow b trapped before after h e q = tt

pub ruleset nothing_rules = (
  pure-Nothing, throw-Nothing, lift-Nothing, if-Writes, map_fail-Nothing, attempt-Nothing,
  bind-Nothing, now-Nothing, next_operation-Nothing,
)
