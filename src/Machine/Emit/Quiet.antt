-- ===== src/Machine/Emit/Quiet.antt =====
-- Calls during which no other message changes the balances, and the bookings that follow them.
use sns_kongswap_adaptor.Base.{
  ℕ, ◌≡◌, refl, ◌∙◌, sym, ap, ◌⊎◌, inl, inr, Bool-cases, Bool, true, false, if◌then◌else◌,
}
use sns_kongswap_adaptor.Base.Text.{Text}
use sns_kongswap_adaptor.Sns.{Principal, Error, pending, TreasuryManagerOperation}
use sns_kongswap_adaptor.Balances.{ValidatedBalances}
use sns_kongswap_adaptor.Agent.{Request, Reply}
use sns_kongswap_adaptor.Machine.State.{
  Canister, ConfigState, initialized, uninitialized, Env, Machine,
}
use sns_kongswap_adaptor.Machine.Run.{
  Flow, done, fail, trapped, trap, Action, map_balances, continue, ◌>>=◌, ◌>>◌, next_operation, now,
  with_balances_mut, pure,
}
use sns_kongswap_adaptor.Machine.Emit.{emit_transaction}
use sns_kongswap_adaptor.Machine.Emit.Invariant.{emit_transaction-Keeps}
use sns_kongswap_adaptor.Machine.Keeps.{Keeps}
use sns_kongswap_adaptor.Machine.Emit.Record.{announced}
use sns_kongswap_adaptor.Base.Result.{ok}

-- The messages that run while a call is awaited leave the balances alone.
abbrev pub IsQuiet : {W : Type 0} → Env W → Type 0
IsQuiet {W} env = (w : W) (c : Canister) → (env.others w c).balances ≡ c.balances

-- What an action has booked when it ends: an update where it has succeeded, with the value `v`, and
-- nothing where it has failed; a trap gives up the whole message.
abbrev pub Booked :
    {A E : Type 0}
    → (ValidatedBalances → ValidatedBalances)
    → A
    → ConfigState
    → Flow A E
    → ConfigState
    → Type 0
Booked f v before (done a) after = (a ≡ v) × (after ≡ map_balances f before)
Booked f v before (fail e) after = after ≡ before
Booked f v before trapped after = Unit

pub record Books {W A E : Type 0} (f : ValidatedBalances → ValidatedBalances) (v : A)
    (x : Action W A E) : Type 0 where
  pub at : (m : Machine W) → Booked f v m.canister.balances (x m).0 (x m).1.canister.balances

-- No booking, unless the message is given up.
abbrev pub Undisturbed : {A E : Type 0} → ConfigState → Flow A E → ConfigState → Type 0
Undisturbed s (done a) after = after ≡ s
Undisturbed s (fail e) after = after ≡ s
Undisturbed s trapped after = Unit

Undisturbed-same :
    {A E : Type 0} (s : ConfigState) (r : Flow A E) (after : ConfigState)
    → after ≡ s
    → Undisturbed s r after
Undisturbed-same s (done a) after h = h
Undisturbed-same s (fail e) after h = h
Undisturbed-same s trapped after h = tt

module _ {W : Type 0} (env : Env W) (quiet : IsQuiet env) (op : TreasuryManagerOperation)
    (p : Principal) (r : Request) (purpose : Text) where
  call-Keeps :
      (s : ConfigState) → Keeps Unit (λ c. c.balances ≡ s) (emit_transaction env op p r purpose)
  call-Keeps s =
      emit_transaction-Keeps Unit tt
        (record {
          others = λ w c h. quiet w c ∙ h;
          appending = λ t c h. h;
          recording = λ w t result c h. quiet w _ ∙ h;
        })
        op p r purpose

  -- Once the call is announced, what the last commit was before it does not matter.
  committed_first :
      (m : Machine W)
      → env.fits (announced env op p purpose m (ok pending)) ≡ true
      → emit_transaction env op p r purpose m
        ≡ emit_transaction env op p r purpose (record m { committed = m.canister })
  unfolding emit_transaction
  committed_first m h = rw h refl

  -- An announcement that is too long.
  unannounced :
      (m : Machine W)
      → env.fits (announced env op p purpose m (ok pending)) ≡ false
      → (emit_transaction env op p r purpose m).0 ≡ trapped
  unfolding emit_transaction
  unannounced m h = rw h refl

  pub emitted :
      (m : Machine W)
      → let result = emit_transaction env op p r purpose m in
        Undisturbed m.canister.balances result.0 result.1.canister.balances
  emitted m =
      let k = call-Keeps m.canister.balances in
      let m' : Machine W = record m { committed = m.canister } in
      elim (Bool-cases (env.fits (announced env op p purpose m (ok pending)))) [
        | inl e ↦
            Undisturbed-same _ _ _
              (ap (λ x. x.1.canister.balances) (committed_first m e) ∙ (k.at m' (refl, refl)).0)
        | inr e ↦ rw (unannounced m e) tt
      ]

  -- A call, and then what is booked for its reply.
  pub emit-Books :
      {A : Type 0} {f : ValidatedBalances → ValidatedBalances} {v : A}
      {k : Reply r → Action W A Error}
      → ((reply : Reply r) → Books f v (k reply))
      → Books f v (emit_transaction env op p r purpose >>= k)
  unfolding ◌>>=◌
  emit-Books {A} {f} {v} {k} books = record {
    at = λ m.
        by_flow m (emit_transaction env op p r purpose m).0
          (emit_transaction env op p r purpose m).1 (emitted m);
  }
    where
      by_flow :
          (m : Machine W) (x : Flow (Reply r) Error) (after : Machine W)
          → Undisturbed m.canister.balances x after.canister.balances
          → let result = continue x k after in
            Booked f v m.canister.balances result.0 result.1.canister.balances
      by_flow m (done reply) after e = rw (sym e) ((books reply).at after)
      by_flow m (fail x) after e = e
      by_flow m trapped after e = e

module _ {W A E : Type 0} {f : ValidatedBalances → ValidatedBalances} {v : A} where
  pub guarded-Books :
      (c : Bool) {x : Action W A E} → Books f v x → Books f v (if c then trap else x)
  unfolding trap
  guarded-Books true h = record { at = λ m. tt }
  guarded-Books false h = h

  pub next_operation-Books :
      {k : TreasuryManagerOperation → Action W A E}
      → ((op : TreasuryManagerOperation) → Books f v (k op))
      → Books f v (next_operation >>= k)
  unfolding ◌>>=◌ next_operation
  next_operation-Books books = record { at = λ m. (books _).at _ }

  pub now-Books :
      {k : ℕ → Action W A E} (env : Env W) → ((n : ℕ) → Books f v (k n)) → Books f v (now env >>= k)
  unfolding ◌>>=◌ now
  now-Books env books = record { at = λ m. (books _).at m }

map_balances-both :
    (f g : ValidatedBalances → ValidatedBalances) (s : ConfigState)
    → map_balances g (map_balances f s) ≡ map_balances (λ b. g (f b)) s
map_balances-both f g uninitialized = refl
map_balances-both f g (initialized b) = refl

-- One update, and two in a row, and then the answer.
module _ {W A E : Type 0} (f g : ValidatedBalances → ValidatedBalances) (a : A) where
  pub update-Books : Books f a (with_balances_mut {W = W} {E = E} f >> pure a)
  unfolding ◌>>=◌ with_balances_mut pure
  update-Books = record { at = λ m. (refl, refl) }

  pub update_twice-Books :
      Books
        (λ b. g (f b))
        a
        (with_balances_mut {W = W} {E = E} f >> (with_balances_mut g >> pure a))
  unfolding ◌>>=◌ with_balances_mut pure
  update_twice-Books = record { at = λ m. (refl, map_balances-both f g m.canister.balances) }

map_balances-nothing : (s : ConfigState) → s ≡ map_balances (λ b. b) s
map_balances-nothing uninitialized = refl
map_balances-nothing (initialized b) = refl

module _ {W E : Type 0} where
  pub end-Books :
      (f : ValidatedBalances → ValidatedBalances) → Books f tt (with_balances_mut {W = W} {E = E} f)
  unfolding with_balances_mut
  end-Books f = record { at = λ m. (refl, refl) }

  pub if-Books :
      (c : Bool) {f : ValidatedBalances → ValidatedBalances} {x : Action W (Unit {0}) E}
      → Books f tt x
      → Books (λ b. if c then b else f b) tt (if c then pure tt else x)
  unfolding pure
  if-Books true k = record { at = λ m. (refl, map_balances-nothing m.canister.balances) }
  if-Books false k = k

-- What two steps have booked, each with the value that it succeeds with: both updates, or the first
-- where the second step has failed, or nothing.
abbrev pub BookedBoth :
    {A E : Type 0}
    → (ValidatedBalances → ValidatedBalances)
    → (ValidatedBalances → ValidatedBalances)
    → A
    → ConfigState
    → Flow A E
    → ConfigState
    → Type 0
BookedBoth f g v before (done a) after = (a ≡ v) × (after ≡ map_balances (λ b. g (f b)) before)
BookedBoth f g v before (fail e) after = (after ≡ before) ⊎ (after ≡ map_balances f before)
BookedBoth f g v before trapped after = Unit

module _ {W A B C E : Type 0} {f g : ValidatedBalances → ValidatedBalances} {a : A} {b : B} where
  pub both-Booked :
      (x : Action W A E) (y : Action W B E) (c : A → B → C)
      → Books f a x
      → Books g b y
      → (m : Machine W)
      → let result = (x >>= λ a. y >>= λ b. pure (c a b)) m in
        BookedBoth f g (c a b) m.canister.balances result.0 result.1.canister.balances
  unfolding ◌>>=◌ pure
  both-Booked x y c h k m = first (x m).0 (x m).1 (h.at m)
    where
      second :
          (a' : A) (r : Flow B E) (middle after : Machine W)
          → a' ≡ a
          → middle.canister.balances ≡ map_balances f m.canister.balances
          → Booked g b middle.canister.balances r after.canister.balances
          → let result = continue r (λ b'. pure (c a' b')) after in
            BookedBoth f g (c a b) m.canister.balances result.0 result.1.canister.balances
      second a' (done b') middle after e i (e', i') =
          (rw (e, e') refl, i' ∙ ap (map_balances g) i ∙ map_balances-both f g m.canister.balances)
      second a' (fail x') middle after e i i' = inr (i' ∙ i)
      second a' trapped middle after e i i' = i'

      first :
          (r : Flow A E) (after : Machine W)
          → Booked f a m.canister.balances r after.canister.balances
          → let result = continue r (λ a. y >>= λ b. pure (c a b)) after in
            BookedBoth f g (c a b) m.canister.balances result.0 result.1.canister.balances
      first (done a') after (e, i) = second a' (y after).0 after (y after).1 e i (k.at after)
      first (fail x') after i = inl i
      first trapped after i = i
