-- ===== src/Adaptor/Writes.antt =====
-- What the methods of the adaptor write into the books, while no other message changes them.
pub mod Dex
pub mod Deposit
pub mod Takes
pub mod Withdraw
pub mod Withdrawn
pub mod Removed
pub mod Conserves
pub mod Accounts
pub mod Settles
use mathlib.Core.Path.{subst}
use mathlib.Core.List.{append-nil}
use sns_kongswap_adaptor.Base.{
  ℕ, zero, suc, ◌≡◌, refl, ◌∙◌, sym, ap, Bool, true, false, if◌then◌else◌, ◌==◌, none, List, [],
  ◌∷◌, ◌++◌,
}
use sns_kongswap_adaptor.Base.Text.{Text}
use sns_kongswap_adaptor.Base.Result.{Result, ok, err, map_err}
use sns_kongswap_adaptor.Sns.{Principal, Account, Error}
use sns_kongswap_adaptor.Validation.Asset.{ValidatedAsset}
use sns_kongswap_adaptor.Balances.{ValidatedBalances, Party}
use sns_kongswap_adaptor.Balances.Bounds.{Update, apply, apply_all}
use sns_kongswap_adaptor.Validation.Asset.{decode_nat_to_u64}
use sns_kongswap_adaptor.Adaptor.State.{postcondition_error}
use sns_kongswap_adaptor.Machine.Writes.Learns.{Said, Learns, learn-then, attempt_then, emit-Learns}
use sns_kongswap_adaptor.Agent.{TokenReply, balance_of}
use sns_kongswap_adaptor.Machine.{Env, Action, ◌>>=◌, attempt}
use sns_kongswap_adaptor.Machine.Emit.Quiet.{IsQuiet, Books}
use sns_kongswap_adaptor.Machine.Writes.{
  assets_of, IsBooking, Writes, Nothing, OnOk, Attempted, attempt-Writes, throw-Writes, pure-Writes,
  if-Writes, lift-Writes, weaken, bind-Writes, then-Writes,
}
use sns_kongswap_adaptor.Machine.Writes.Nothing.{
  pure-Nothing, throw-Nothing, get_cached_balances-Writes, update-Writes, emit-Nothing,
  next_operation-Nothing, nothing_rules,
}
use sns_kongswap_adaptor.Machine.Writes.Yields.{Yields, Books-Yields, then-Yields}
use sns_kongswap_adaptor.Adaptor.Ledgers.Returned.{returned-Books}
use sns_kongswap_adaptor.Balances
use sns_kongswap_adaptor.Balances.Each.{AllOrdinary}
use sns_kongswap_adaptor.Adaptor.State.{assets, move_asset}
use sns_kongswap_adaptor.Adaptor.Kong.{lp_token, maybe_add_token, tolerate_existing}
use sns_kongswap_adaptor.Adaptor.Ledgers.{
  get_ledger_balance_decimals, get_ledger_balances, both_balances,
  return_remaining_assets_to_owner_impl, return_remaining_assets_to_owner, all_returned, pushed,
}

module _ {pair : ValidatedAsset × ValidatedAsset} {W E : Type 0} where
  -- The assets are those of the books.
  assets-Writes :
      Writes Unit pair (λ r us. (us ≡ []) × OnOk (λ v vs. v ≡ pair) r us) (assets {W = W} {E = E})
  unfolding assets
  assets-Writes =
      bind-Writes get_cached_balances-Writes (λ b us h. pure-Writes _ (rw h.0 (refl, h.1)))
        (λ e us h. h)

  pub assets-then :
      {B : Type 0} {S : Result B E → List Update → Type 0}
      (k : ValidatedAsset × ValidatedAsset → Action W B E)
      → ((e : E) → S (err e) [])
      → Writes Unit pair S (k pair)
      → Writes Unit pair S (assets >>= k)
  assets-then {S} k failed next =
      bind-Writes assets-Writes
        (λ v us h.
          subst (λ us. Writes Unit pair (λ r vs. S r (us ++ vs)) (k v)) (sym h.0)
            (subst (λ v. Writes Unit pair S (k v)) (sym h.1) next))
        (λ e us h. subst (λ us. S (err e) us) (sym h.0) (failed e))

  pub assets-Nothing : Writes Unit pair Nothing (assets {W = W} {E = E})
  assets-Nothing = weaken (λ r us h. h.0) assets-Writes

  pub lp_token-Nothing : Writes Unit pair Nothing (lp_token {W = W} {E = E})
  unfolding lp_token
  lp_token-Nothing = search (nothing_rules, assets-Nothing) depth 8

module _ {pair : ValidatedAsset × ValidatedAsset} {W : Type 0} where
  tolerate_existing-Nothing :
      (token : Text) (r : Result TokenReply Error)
      → Writes Unit pair Nothing (tolerate_existing {W = W} token r)
  unfolding tolerate_existing
  tolerate_existing-Nothing token (ok reply) = pure-Nothing tt
  tolerate_existing-Nothing token (err e) = if-Writes _ (pure-Nothing tt) (throw-Nothing e)

module _ {pair : ValidatedAsset × ValidatedAsset} {W : Type 0} (env : Env W)
    (quiet : IsQuiet env) where
  pub maybe_add_token-Nothing : (p : Principal) → Writes Unit pair Nothing (maybe_add_token env p)
  unfolding maybe_add_token
  maybe_add_token-Nothing p =
      search (nothing_rules, emit-Nothing env quiet, tolerate_existing-Nothing) depth 12

-- The ledger of an asset answers that the canister has `n`.
abbrev pub Shows : {W : Type 0} → Env W → ValidatedAsset → ℕ → Type 0
Shows env a n =
    (v : ℕ) × Said env a.ledger_canister_id
      (balance_of (record { owner = env.id; subaccount = none })) (ok v)
    × (decode_nat_to_u64 env.display v ≡ ok n)

-- The same of a result, and of both assets.
abbrev pub ShowsResult : {W : Type 0} → Env W → ValidatedAsset → Result ℕ Error → Type 0
ShowsResult env a (ok n) = Shows env a n
ShowsResult env a (err e) = Unit

abbrev pub ShowBoth :
    {W : Type 0} → Env W → ValidatedAsset × ValidatedAsset → Result (ℕ × ℕ) (List Error) → Type 0
ShowBoth env pair (ok n) = Shows env pair.0 n.0 × Shows env pair.1 n.1
ShowBoth env pair (err es) = Unit

module _ {W : Type 0} (env : Env W) where
  decoded_balance :
      (a : ValidatedAsset) (v : ℕ) (x : Result ℕ Text)
      → Said env a.ledger_canister_id
          (balance_of (record { owner = env.id; subaccount = none }))
          (ok v)
      → decode_nat_to_u64 env.display v ≡ x
      → ShowsResult env a (map_err postcondition_error x)
  decoded_balance a v (ok n) h e = (v, h, e)
  decoded_balance a v (err x) h e = tt

  both_shown :
      (pair : ValidatedAsset × ValidatedAsset) (x y : Result ℕ Error)
      → ShowsResult env pair.0 x
      → ShowsResult env pair.1 y
      → ShowBoth env pair (both_balances x y)
  both_shown pair (ok m) (ok n) h k = (h, k)
  both_shown pair (ok m) (err e) h k = tt
  both_shown pair (err e) (ok n) h k = tt
  both_shown pair (err e) (err e') h k = tt

module _ {pair : ValidatedAsset × ValidatedAsset} {W : Type 0} (env : Env W)
    (quiet : IsQuiet env) where
  get_ledger_balance_decimals-Learns :
      (a : ValidatedAsset)
      → Writes Unit pair (Learns (ShowsResult env a)) (get_ledger_balance_decimals env a)
  unfolding get_ledger_balance_decimals
  get_ledger_balance_decimals-Learns a =
      then-Writes next_operation-Nothing (λ e. (refl, tt))
        (λ op.
          learn-then _
            (emit-Learns env quiet op a.ledger_canister_id
              (balance_of (record { owner = env.id; subaccount = none })) _)
            (λ e h. (refl, tt)) (λ v h. lift-Writes _ (refl, decoded_balance env a v _ h refl)))

  pub get_ledger_balances-Learns :
      Writes Unit pair (Learns (ShowBoth env pair)) (get_ledger_balances env)
  unfolding get_ledger_balances
  get_ledger_balances-Learns =
      assets-then _ (λ e. (refl, tt))
        (attempt_then _ (get_ledger_balance_decimals-Learns pair.0) (λ x h.
          attempt_then _ (get_ledger_balance_decimals-Learns pair.1)
            (λ y k. lift-Writes _ (refl, both_shown env pair x y h k))))

  pub get_ledger_balances-Nothing : Writes Unit pair Nothing (get_ledger_balances env)
  get_ledger_balances-Nothing = weaken (λ r us h. h.0) get_ledger_balances-Learns

-- The updates for the return of an amount to the owner.
abbrev pub to_owner : ValidatedAsset → ℕ → List Update
to_owner asset amount =
    if amount == 0
    then []
    else Update.move asset Party.treasury_manager Party.treasury_owner amount ∷ []

if-AllOrdinary : (c : Bool) (us : List Update) → AllOrdinary us → AllOrdinary (if c then [] else us)
if-AllOrdinary true us h = tt
if-AllOrdinary false us h = h

if-apply_all :
    (c : Bool) (u : Update)
    → (λ b. if c then b else apply u b) ≡ apply_all (if c then [] else u ∷ [])
unfolding apply_all
if-apply_all true u = refl
if-apply_all false u = refl

pub to_owner-AllOrdinary : (a : ValidatedAsset) (n : ℕ) → AllOrdinary (to_owner a n)
to_owner-AllOrdinary a n = if-AllOrdinary (n == 0) _ (tt, tt)

-- What both returns write: the amounts are what the ledgers show.
abbrev pub Returned : {W : Type 0} → Env W → ValidatedAsset × ValidatedAsset → List Update → Type 0
Returned env pair us =
    (n_0 n_1 : ℕ) × Shows env pair.0 n_0
    × Shows env pair.1 n_1
    × (us ≡ to_owner pair.0 n_0 ++ to_owner pair.1 n_1)

module _ {pair : ValidatedAsset × ValidatedAsset} {W : Type 0} (env : Env W)
    (quiet : IsQuiet env) where
  return_impl-Yields :
      (a : ValidatedAsset) (n : ℕ) (account : Account)
      → Writes Unit pair
          (Yields tt (to_owner a n))
          (return_remaining_assets_to_owner_impl env a n account)
  unfolding apply
  return_impl-Yields a n account =
      let move = Update.move a Party.treasury_manager Party.treasury_owner n in
      Books-Yields (to_owner a n) (to_owner-AllOrdinary a n) (
        subst (λ f. Books f tt (return_remaining_assets_to_owner_impl env a n account))
          (if-apply_all (n == 0) move) (returned-Books env quiet a n account))

  -- From the first outcome on.
  second-Writes :
      (n_0 n_1 : ℕ) (shown_0 : Shows env pair.0 n_0) (shown_1 : Shows env pair.1 n_1)
      (account : Account) (r : Result (Unit {0}) Error) (us : List Update)
      → Yields tt (to_owner pair.0 n_0) r us
      → Writes Unit pair
          (λ q vs. OnOk (λ v us. Returned env pair us) q (us ++ vs))
          (attempt (return_remaining_assets_to_owner_impl env pair.1 n_1 account) >>= λ s.
            all_returned (pushed r ++ pushed s))
  second-Writes n_0 n_1 shown_0 shown_1 account (err e) us h =
      bind-Writes
        (attempt-Writes {R = Attempted (λ s vs. Unit)}
          (weaken (λ s vs k. tt) (return_impl-Yields pair.1 n_1 account)))
        (λ s vs k. throw-Writes _ tt) (λ es vs k. tt)
  second-Writes n_0 n_1 shown_0 shown_1 account (ok done) us h =
      bind-Writes
        (attempt-Writes {R = Attempted (Yields tt (to_owner pair.1 n_1))}
          (return_impl-Yields pair.1 n_1 account))
        (λ s vs k. ending s vs k) (λ es vs k. tt)
    where
      ending :
          (s : Result (Unit {0}) Error) (vs : List Update)
          → Yields tt (to_owner pair.1 n_1) s vs
          → Writes Unit pair
              (λ q ws. OnOk (λ v us. Returned env pair us) q (us ++ (vs ++ ws)))
              (all_returned {W = W} (pushed s))
      ending (ok done) vs k =
          pure-Writes tt (n_0, n_1, shown_0, shown_1, simp (h.1, k.1, append-nil))
      ending (err e) vs k = throw-Writes _ tt

  pub return_remaining_assets_to_owner-Writes :
      (x y : Account)
      → Writes Unit pair
          (OnOk (λ v us. Returned env pair us))
          (return_remaining_assets_to_owner env x y)
  unfolding return_remaining_assets_to_owner
  return_remaining_assets_to_owner-Writes x y =
      assets-then _ (λ e. tt)
        (learn-then _ (get_ledger_balances-Learns env quiet) (λ e h. tt)
          (λ amounts shown.
            bind-Writes
              (attempt-Writes {R = Attempted (Yields tt (to_owner pair.0 amounts.0))}
                (return_impl-Yields pair.0 amounts.0 x))
              (λ r us h. second-Writes amounts.0 amounts.1 shown.0 shown.1 y r us h)
              (λ es us h. tt)))
