-- ===== src/Machine/Writes.antt =====
-- What an action writes into the books: a list of updates that its outcome determines, while no other
-- message changes the balances. One rule for each way to build an action.
pub mod Nothing
pub mod Yields
pub mod Learns
use mathlib.Core.Path.{subst}
use sns_kongswap_adaptor.Base.{
  ℕ, ◌≡◌, refl, ◌∙◌, sym, ap, Bool, true, false, if◌then◌else◌, List, [], ◌∷◌, ◌++◌,
}
use sns_kongswap_adaptor.Base.Text.{Text}
use sns_kongswap_adaptor.Base.Result.{Result, ok, err}
use sns_kongswap_adaptor.Sns.{Principal, Error, TreasuryManagerOperation}
use sns_kongswap_adaptor.Validation.Asset.{ValidatedAsset}
use sns_kongswap_adaptor.Balances.{ValidatedBalances}
use sns_kongswap_adaptor.Balances.Bounds.{Update, apply, apply_all}
use sns_kongswap_adaptor.Agent.{Request, Reply}
use sns_kongswap_adaptor.Machine.State.{
  Canister, ConfigState, initialized, uninitialized, Env, Machine,
}
use sns_kongswap_adaptor.Machine.Run.{
  Flow, done, fail, trapped, Action, continue, cached, recast, settled, pure, throw, lift, ◌>>=◌,
  map_fail, attempt, now, next_operation, with_balances_mut, map_balances, get_cached_balances,
}
use sns_kongswap_adaptor.Machine.Emit.{emit_transaction}
use sns_kongswap_adaptor.Machine.Emit.Quiet.{IsQuiet, emitted}
use sns_kongswap_adaptor.Machine.Keeps.{Ends}

abbrev pub assets_of : ValidatedBalances → ValidatedAsset × ValidatedAsset
assets_of b = (b.asset_0, b.asset_1)

pub apply_all-append :
    (us vs : List Update) (b : ValidatedBalances)
    → apply_all (us ++ vs) b ≡ apply_all vs (apply_all us b)
unfolding apply_all
apply_all-append [] vs b = refl
apply_all-append (u ∷ us) vs b = apply_all-append us vs (apply u b)

-- An update that leaves the assets of the books alone.
abbrev pub IsBooking : Update → Type 0
IsBooking u = (b : ValidatedBalances) → assets_of (apply u b) ≡ assets_of b

module _ (pair : ValidatedAsset × ValidatedAsset) {A E : Type 0} where
  -- From `b`, the outcome `r` has come with updates that `R` relates to it.
  abbrev pub Wrote :
      (Result A E → List Update → Type 0) → ValidatedBalances → Result A E → ConfigState → Type 0
  Wrote R b r after =
      (us : List Update) × R r us
      × (after ≡ initialized (apply_all us b))
      × (assets_of (apply_all us b) ≡ pair)

  abbrev pub Post :
      Type 0
      → (Result A E → List Update → Type 0)
      → ValidatedBalances
      → Flow A E
      → ConfigState
      → Type 0
  Post T R b (done a) after = Wrote R b (ok a) after
  Post T R b (fail e) after = Wrote R b (err e) after
  Post T R b trapped after = T

-- From initialized balances with the assets `pair`, the action traps only where `T` admits it, and writes as `R` says.
pub record Writes {W A E : Type 0} (T : Type 0) (pair : ValidatedAsset × ValidatedAsset)
    (R : Result A E → List Update → Type 0) (x : Action W A E) : Type 0 where
  pub at :
      (m : Machine W) (b : ValidatedBalances)
      → m.canister.balances ≡ initialized b
      → assets_of b ≡ pair
      → Post pair T R b (x m).0 (x m).1.canister.balances

-- Nothing, whatever the outcome.
abbrev pub Nothing : {A E : Type 0} → Result A E → List Update → Type 0
Nothing r us = us ≡ []

-- As `Q` says, where the outcome is a value.
abbrev pub OnOk : {A E : Type 0} → (A → List Update → Type 0) → Result A E → List Update → Type 0
OnOk Q (ok a) us = Q a us
OnOk Q (err e) us = Unit

pub OnOk-all :
    {A E : Type 0} (Q : A → List Update → Type 0) (us : List Update)
    → ((a : A) → Q a us)
    → (r : Result A E) → OnOk Q r us
OnOk-all Q us h (ok a) = h a
OnOk-all Q us h (err e) = tt

pub OnOk-map :
    {A E : Type 0} (Q S : A → List Update → Type 0) (vs us : List Update)
    → ((a : A) → Q a us → S a vs)
    → (r : Result A E) → OnOk Q r us
    → OnOk S r vs
OnOk-map Q S vs us f (ok a) h = f a h
OnOk-map Q S vs us f (err e) h = tt

module _ {T : Type 0} {pair : ValidatedAsset × ValidatedAsset} {W A E : Type 0} where
  pub pure-Writes :
      {R : Result A E → List Update → Type 0} (a : A)
      → R (ok a) []
      → Writes T pair R (pure {W = W} a)
  unfolding pure apply_all
  pure-Writes a r = record { at = λ m b e p. ([], r, e, p) }

  pub throw-Writes :
      {R : Result A E → List Update → Type 0} (x : E)
      → R (err x) []
      → Writes T pair R (throw {W = W} x)
  unfolding throw apply_all
  throw-Writes x r = record { at = λ m b e p. ([], r, e, p) }

  pub lift-Writes :
      {R : Result A E → List Update → Type 0} (r : Result A E)
      → R r []
      → Writes T pair R (lift {W = W} r)
  unfolding lift apply_all
  lift-Writes (ok a) r = record { at = λ m b e p. ([], r, e, p) }
  lift-Writes (err x) r = record { at = λ m b e p. ([], r, e, p) }

  pub if-Writes :
      {R : Result A E → List Update → Type 0} (c : Bool) {x y : Action W A E}
      → Writes T pair R x
      → Writes T pair R y
      → Writes T pair R (if c then x else y)
  if-Writes true h k = h
  if-Writes false h k = k

  pub weaken :
      {R S : Result A E → List Update → Type 0} {x : Action W A E}
      → ((r : Result A E) (us : List Update) → R r us → S r us)
      → Writes T pair R x
      → Writes T pair S x
  weaken {R} {S} {x} f h = record {
    at = λ m b e p. by_flow b (x m).0 (x m).1.canister.balances (h.at m b e p);
  }
    where
      by_flow :
          (b : ValidatedBalances) (r : Flow A E) (after : ConfigState)
          → Post pair T R b r after
          → Post pair T S b r after
      by_flow b (done a) after (us, r, k, l) = (us, f (ok a) us r, k, l)
      by_flow b (fail e) after (us, r, k, l) = (us, f (err e) us r, k, l)
      by_flow b trapped after h = h

module _ {A B E : Type 0} where
  abbrev pub Recast :
      (E → B) → (Result A B → List Update → Type 0) → Result A E → List Update → Type 0
  Recast f R (ok a) us = R (ok a) us
  Recast f R (err e) us = R (err (f e)) us

  -- The outcome that is looked at.
  abbrev pub Attempted :
      (Result A E → List Update → Type 0) → Result (Result A E) B → List Update → Type 0
  Attempted Q (ok r) us = Q r us
  Attempted Q (err e) us = ⊥

module _ {T : Type 0} {pair : ValidatedAsset × ValidatedAsset} {W A B E : Type 0} where
  pub bind-Writes :
      {R : Result A E → List Update → Type 0} {S : Result B E → List Update → Type 0}
      {x : Action W A E} {k : A → Action W B E}
      → Writes T pair R x
      → ((a : A) (us : List Update) → R (ok a) us → Writes T pair (λ r vs. S r (us ++ vs)) (k a))
      → ((e : E) (us : List Update) → R (err e) us → S (err e) us)
      → Writes T pair S (x >>= k)
  unfolding ◌>>=◌
  bind-Writes {R} {S} {x} {k} h next failed = record {
    at = λ m b e p. first b (x m).0 (x m).1 (h.at m b e p);
  }
    where
      then_ :
          (b : ValidatedBalances) (us : List Update) (r : Flow B E) (after : ConfigState)
          → Post pair T (λ r vs. S r (us ++ vs)) (apply_all us b) r after
          → Post pair T S b r after
      then_ b us (done a) after (vs, s, e, p) =
          let i = apply_all-append us vs b in
          (us ++ vs, s, e ∙ ap initialized (sym i), ap assets_of i ∙ p)
      then_ b us (fail x) after (vs, s, e, p) =
          let i = apply_all-append us vs b in
          (us ++ vs, s, e ∙ ap initialized (sym i), ap assets_of i ∙ p)
      then_ b us trapped after h = h

      first :
          (b : ValidatedBalances) (r : Flow A E) (m : Machine W)
          → Post pair T R b r m.canister.balances
          → let result = continue r k m in Post pair T S b result.0 result.1.canister.balances
      first b (done a) m (us, r, e, p) =
          then_ b us (k a m).0 (k a m).1.canister.balances ((next a us r).at m (apply_all us b) e p)
      first b (fail x) m (us, r, e, p) = (us, failed x us r, e, p)
      first b trapped m h = h

  pub map_fail-Writes :
      {R : Result A B → List Update → Type 0} (f : E → B) {x : Action W A E}
      → Writes T pair (Recast f R) x
      → Writes T pair R (map_fail f x)
  unfolding map_fail
  map_fail-Writes {R} f {x} h = record {
    at = λ m b e p. by_flow b (x m).0 (x m).1.canister.balances (h.at m b e p);
  }
    where
      by_flow :
          (b : ValidatedBalances) (r : Flow A E) (after : ConfigState)
          → Post pair T (Recast f R) b r after
          → Post pair T R b (recast f r) after
      by_flow b (done a) after h = h
      by_flow b (fail e) after h = h
      by_flow b trapped after h = h

  pub attempt-Writes :
      {R : Result (Result A E) B → List Update → Type 0} {x : Action W A E}
      → Writes T pair (λ r us. R (ok r) us) x
      → Writes T pair R (attempt x)
  unfolding attempt
  attempt-Writes {R} {x} h = record {
    at = λ m b e p. by_flow b (x m).0 (x m).1.canister.balances (h.at m b e p);
  }
    where
      by_flow :
          (b : ValidatedBalances) (r : Flow A E) (after : ConfigState)
          → Post pair T (λ r us. R (ok r) us) b r after
          → Post pair T R b (settled r) after
      by_flow b (done a) after h = h
      by_flow b (fail e) after h = h
      by_flow b trapped after h = h

  -- What follows an action that writes nothing.
  pub then-Writes :
      {S : Result B E → List Update → Type 0} {x : Action W A E} {k : A → Action W B E}
      → Writes T pair Nothing x
      → ((e : E) → S (err e) [])
      → ((a : A) → Writes T pair S (k a))
      → Writes T pair S (x >>= k)
  then-Writes {S} {k} h failed next =
      bind-Writes h
        (λ a us e. subst (λ us. Writes T pair (λ r vs. S r (us ++ vs)) (k a)) (sym e) (next a))
        (λ x us e. subst (λ us. S (err x) us) (sym e) (failed x))
