-- ===== src/Adaptor/Writes/Takes.antt =====
-- Actions that take from the DEX only.
use mathlib.Core.Path.{subst}
use sns_kongswap_adaptor.Base.{ℕ, ◌≡◌, sym, false, List, [], ◌∷◌, ◌++◌}
use sns_kongswap_adaptor.Base.Text.{Text}
use sns_kongswap_adaptor.Base.Result.{Result, ok, err}
use sns_kongswap_adaptor.Validation.Asset.{ValidatedAsset}
use sns_kongswap_adaptor.Balances.{Party}
use sns_kongswap_adaptor.Balances.Bounds.{Update, apply}
use sns_kongswap_adaptor.Adaptor.Writes.{assets-Nothing}
use sns_kongswap_adaptor.Machine.{
  Action, ◌>>=◌, pure, throw, trap, attempt, map_fail, next_operation,
}
use sns_kongswap_adaptor.Machine.Writes.{
  Writes, Nothing, weaken, bind-Writes, pure-Writes, throw-Writes, if-Writes, Recast,
  map_fail-Writes, attempt-Writes,
}
use sns_kongswap_adaptor.Machine.Writes.Nothing.{next_operation-Nothing}
use sns_kongswap_adaptor.Machine.Writes.Yields.{update-last}
use sns_kongswap_adaptor.Adaptor.State.{
  assets, get_asset_for_ledger, move_asset, find_discrepency, unwrap,
}

-- What a withdrawal takes from the DEX: movements from there to the manager, and comparisons of the
-- ledger balances.
pub data Taking : Update → Type 0 where
  from_dex :
      (a : ValidatedAsset) (n : ℕ) → Taking (Update.move a Party.external Party.treasury_manager n)
  compared : (a : ValidatedAsset) (x y n : ℕ) → Taking (Update.withdraw_check a x y n)

abbrev pub AllTaking : List Update → Type 0
AllTaking [] = Unit
AllTaking (u ∷ us) = Taking u × AllTaking us

pub AllTaking-append : (us vs : List Update) → AllTaking us → AllTaking vs → AllTaking (us ++ vs)
AllTaking-append [] vs h k = k
AllTaking-append (u ∷ us) vs h k = (h.0, AllTaking-append us vs h.1 k)

AllTaking-nothing : (us : List Update) → us ≡ [] → AllTaking us
AllTaking-nothing us e = subst AllTaking (sym e) tt

-- Only such updates, whatever the outcome.
abbrev pub Takes : {A E : Type 0} → Result A E → List Update → Type 0
Takes r us = AllTaking us

module _ {pair : ValidatedAsset × ValidatedAsset} {W A E : Type 0} where
  pub Nothing-Takes : {x : Action W A E} → Writes Unit pair Nothing x → Writes Unit pair Takes x
  Nothing-Takes h = weaken (λ r us e. AllTaking-nothing us e) h

module _ {pair : ValidatedAsset × ValidatedAsset} {W A B E : Type 0} where
  pub bind-Takes :
      {x : Action W A E} {k : A → Action W B E}
      → Writes Unit pair Takes x
      → ((a : A) → Writes Unit pair Takes (k a))
      → Writes Unit pair Takes (x >>= k)
  bind-Takes h next =
      bind-Writes h (λ a us t. weaken (λ r vs s. AllTaking-append us vs t s) (next a)) (λ e us t. t)

  pub attempt-Takes :
      {x : Action W A E} → Writes Unit pair Takes x → Writes Unit pair Takes (attempt {B = B} x)
  attempt-Takes h = attempt-Writes h

  pub map_fail-Takes :
      (f : E → B) {x : Action W A E}
      → Writes Unit pair Takes x
      → Writes Unit pair Takes (map_fail f x)
  map_fail-Takes f h = map_fail-Writes f (weaken recast_takes h)
    where
      recast_takes : (r : Result A E) (us : List Update) → AllTaking us → Recast f Takes r us
      recast_takes (ok a) us h = h
      recast_takes (err e) us h = h

module _ {pair : ValidatedAsset × ValidatedAsset} {W A E : Type 0} where
  pub pure-Takes : (a : A) → Writes Unit pair Takes (pure {W = W} {E = E} a)
  pure-Takes a = pure-Writes a tt

  pub throw-Takes : (e : E) → Writes Unit pair Takes (throw {W = W} {A = A} e)
  throw-Takes e = throw-Writes e tt

  -- A number that cannot be decoded stops the withdrawal.
  pub unwrap-Takes :
      {F : Type 0} → (r : Result A F) → Writes Unit pair Takes (unwrap {W = W} {E = E} r)
  unfolding unwrap trap
  unwrap-Takes (ok a) = pure-Takes a
  unwrap-Takes (err e) = record { at = λ m b i p. tt }

module _ {pair : ValidatedAsset × ValidatedAsset} {W E : Type 0} where
  pub next_operation-Takes : Writes Unit pair Takes (next_operation {W = W} {E = E})
  next_operation-Takes = Nothing-Takes next_operation-Nothing

  pub assets-Takes : Writes Unit pair Takes (assets {W = W} {E = E})
  assets-Takes = Nothing-Takes assets-Nothing

  pub get_asset_for_ledger-Takes :
      (t : Text) → Writes Unit pair Takes (get_asset_for_ledger {W = W} {E = E} t)
  unfolding get_asset_for_ledger
  get_asset_for_ledger-Takes t = bind-Takes assets-Takes (λ both. pure-Takes _)

  pub from_dex-Takes :
      (a : ValidatedAsset) (n : ℕ)
      → Writes Unit pair Takes
          (move_asset {W = W} {E = E} a n Party.external Party.treasury_manager)
  unfolding move_asset apply
  from_dex-Takes a n =
      update-last (Update.move a Party.external Party.treasury_manager n) tt
        (λ r. (from_dex a n, tt))

  pub compared-Takes :
      (a : ValidatedAsset) (x y n : ℕ)
      → Writes Unit pair Takes (find_discrepency {W = W} {E = E} a x y n false)
  unfolding find_discrepency apply
  compared-Takes a x y n =
      update-last (Update.withdraw_check a x y n) tt (λ r. (compared a x y n, tt))

pub ruleset taking_rules = (
  pure-Takes, throw-Takes, if-Writes, bind-Takes, attempt-Takes, map_fail-Takes,
  next_operation-Takes, assets-Takes, get_asset_for_ledger-Takes, from_dex-Takes, compared-Takes,
)
