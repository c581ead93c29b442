-- ===== src/Machine/Answers.antt =====
-- Actions that answer with the books that they leave.
use sns_kongswap_adaptor.Base.{◌≡◌, refl}
use sns_kongswap_adaptor.Balances.{ValidatedBalances}
use sns_kongswap_adaptor.Machine.State.{ConfigState, initialized, uninitialized, Machine}
use sns_kongswap_adaptor.Machine.Run.{
  Flow, done, fail, trapped, Action, continue, cached, throw, pure, trap, ◌>>=◌,
  get_cached_balances,
}

-- Where the action succeeds, its value is the balances of the canister then.
pub record Answers {W E : Type 0} (x : Action W ValidatedBalances E) : Type 0 where
  pub at :
      (m : Machine W) (b : ValidatedBalances)
      → (x m).0 ≡ done b
      → (x m).1.canister.balances ≡ initialized b

module _ {W E : Type 0} where
  pub get_cached_balances-Answers : Answers (get_cached_balances {W = W} {E = E})
  unfolding get_cached_balances pure trap
  get_cached_balances-Answers = record { at = λ m b. by_state m.canister.balances m b refl }
    where
      by_state :
          (s : ConfigState) (m : Machine W) (b : ValidatedBalances)
          → m.canister.balances ≡ s
          → (cached {W = W} {E = E} s m).0 ≡ done b
          → (cached {W = W} {E = E} s m).1.canister.balances ≡ initialized b
      by_state uninitialized m b e h = cc
      by_state (initialized b') m b e h = cc

  pub throw-Answers : (e : E) → Answers (throw {W = W} e)
  unfolding throw
  throw-Answers e = record { at = λ m b h. cc }

  pub bind-Answers :
      {A : Type 0} (x : Action W A E) (k : A → Action W ValidatedBalances E)
      → ((a : A) → Answers (k a))
      → Answers (x >>= k)
  unfolding ◌>>=◌
  bind-Answers {A} x k h = record { at = λ m b. by_flow b (x m).0 (x m).1 }
    where
      by_flow :
          (b : ValidatedBalances) (r : Flow A E) (m : Machine W)
          → (continue r k m).0 ≡ done b
          → (continue r k m).1.canister.balances ≡ initialized b
      by_flow b (done a) m e = (h a).at m b e
      by_flow b (fail x') m e = cc
      by_flow b trapped m e = cc
