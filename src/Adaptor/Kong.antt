-- ===== src/Adaptor/Kong.antt =====
-- kong_api.rs, and `kong_lp_balance_to_decimals` of kong_types.rs.
use sns_kongswap_adaptor.Base.{ℕ, Option, none, some, List, [], ◌∷◌, ◌++◌, if◌then◌else◌}
use sns_kongswap_adaptor.Base.Text.{Text, str, text_eq}
use sns_kongswap_adaptor.Base.Result.{Result, ok, err}
use sns_kongswap_adaptor.Arithmetics.{u64_max}
use sns_kongswap_adaptor.Sns.{Principal, Error}
use sns_kongswap_adaptor.Validation.Asset.{symbol_text}
use sns_kongswap_adaptor.Agent.{add_token, user_balances, UserBalanceLpReply, TokenReply}
use sns_kongswap_adaptor.Machine.{
  Env, FloatApi, Action, ◌>>=◌, pure, throw, attempt, next_operation,
}
use sns_kongswap_adaptor.Machine.Emit.{emit_transaction}
use sns_kongswap_adaptor.Adaptor.State.{assets}

abbrev pub e8 : ℕ
e8 = 100_000_000

unfoldable pub kong_lp_balance_to_decimals : FloatApi → ℕ → ℕ
kong_lp_balance_to_decimals f lp_balance =
    if f.is_nan lp_balance
    then u64_max
    else f.to_u64
        (f.round (f.clamp (f.mul lp_balance (f.of_u64 e8)) (f.of_u64 0) (f.of_u64 u64_max)))

-- The token name of the DEX for a ledger.
abbrev pub token_of : Principal → Text
token_of ledger = str "IC." ++ ledger.text

module _ {W E : Type 0} where
  unfoldable pub lp_token : Action W Text E
  lp_token = do
    (asset_0, asset_1) ← assets
    pure (symbol_text asset_0 ++ (str "_" ++ symbol_text asset_1))

-- A token that the DEX knows already is no failure.
unfoldable pub tolerate_existing :
    {W : Type 0} → Text → Result TokenReply Error → Action W (Unit {0}) Error
tolerate_existing token (ok reply) = pure tt
tolerate_existing token (err e) =
    if text_eq e.message (str "Token " ++ (token ++ str " already exists"))
    then pure tt
    else throw e

-- The balance of the first reply with the symbol of the pool.
unfoldable pub find_lp : FloatApi → Text → List UserBalanceLpReply → Option ℕ
find_lp f pool [] = none
find_lp f pool (reply ∷ replies) =
    if text_eq reply.symbol pool
    then some (kong_lp_balance_to_decimals f reply.balance)
    else find_lp f pool replies

-- A failed call, and a reply without the pool, count as a balance of 0.
unfoldable pub lp_from_replies : FloatApi → Text → Result (List UserBalanceLpReply) Error → ℕ
lp_from_replies f pool (err e) = 0
lp_from_replies f pool (ok replies) = elim (find_lp f pool replies) [
  | none ↦ 0
  | some lp_balance ↦ lp_balance
]

module _ {W : Type 0} (env : Env W) where
  unfoldable pub maybe_add_token : Principal → Action W (Unit {0}) Error
  maybe_add_token ledger_canister_id = do
    let token = token_of ledger_canister_id
    operation ← next_operation
    response ← attempt (
        emit_transaction env operation env.kong_backend_canister_id
          (add_token (record { token = token }))
          (str "Calling KongSwapBackend.add_token to attempt to add " ++ (token ++ str ".")))
    tolerate_existing token response

module _ {W E : Type 0} (env : Env W) where
  unfoldable pub lp_balance : Action W ℕ E
  lp_balance = do
    operation ← next_operation
    result ← attempt (
        emit_transaction env operation env.kong_backend_canister_id
          (user_balances (record { principal_id = env.id.text }))
          (str "Calling KongSwapBackend.user_balances to get LP balances."))
    token ← lp_token
    pure (lp_from_replies env.floats token result)
