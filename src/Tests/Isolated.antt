-- ===== src/Tests/Isolated.antt =====
-- A deposit and a withdrawal in a world whose DEX answers, while other deposits and withdrawals arrive
-- at every call.
use sns_kongswap_adaptor.Base.{ℕ, suc, ◌≡◌, refl, none, [], ◌∷◌, ◌+◌, ◌-◌, ◌*◌, arith}
use sns_kongswap_adaptor.Base.Text.{Text, str}
use sns_kongswap_adaptor.Base.Result.{Result, ok}
use sns_kongswap_adaptor.Sns.{Operation, DepositRequest}
use sns_kongswap_adaptor.Balances.{ValidatedBalanceBook, ValidatedBalances}
use sns_kongswap_adaptor.Context
use sns_kongswap_adaptor.Balances
use sns_kongswap_adaptor.Agent.{Request, Response, add_token, add_pool, approve}
use sns_kongswap_adaptor.Machine.{Env, Machine}
use sns_kongswap_adaptor.Adaptor.Messages.Exclusive.{interleaved, alone}
use sns_kongswap_adaptor.Adaptor.Isolation.Handlers.{IsPrompt, handlers_isolated}
use sns_kongswap_adaptor.Adaptor.Manager.{deposit}
use sns_kongswap_adaptor.Adaptor.Withdraw.{withdraw_impl}
use sns_kongswap_adaptor.TestHelpers.{make_add_token_reply, make_add_pool_reply}
use sns_kongswap_adaptor.Tests.Adaptor.{nobody}
use sns_kongswap_adaptor.Tests.Interleaving.{arrivals}
use sns_kongswap_adaptor.Tests.Fixtures.{
  answer, env, sns_ledger, machine, some_balances, some_book, balance, account_of, manager,
  anonymous, allowance_0, allowance_1,
}

-- The DEX knows the tokens and adds the pool.
abbrev pub replies : (r : Request) → Result (Response r) Text
replies (approve args) = ok (ok 3)
replies (add_token args) =
    ok (ok (make_add_token_reply 1 (str "IC") sns_ledger (str "DAO") (str "DAO") 10_500))
replies (add_pool args) = ok (ok (make_add_pool_reply (str "DAO") (str "ICP")))
replies r = answer r

abbrev pub prompt_env : Env ℕ
prompt_env = record env { time_ns = λ w. 1000; call = λ p r w. (replies r, suc w) }

pub prompt : IsPrompt prompt_env
prompt = record {
  grows = λ w. refl;
  fits = λ w. omega arith;
  answered = λ p r w. omega arith;
  resumed = λ p r w. omega arith;
}

abbrev both : DepositRequest
both = record { allowances = allowance_0 ∷ allowance_1 ∷ [] }

abbrev pub within : Operation → Machine ℕ
within op = record machine { context = record { operation = op; index = none } }

-- Of 500,000 DAO and 400,000 ICP, the DEX takes what is left after the two fees, and the ledger charges
-- for that transfer too. The ledgers show 1,000,000 of each, which go back to the owner.
abbrev deposited_book : ℕ → ℕ → ValidatedBalanceBook
deposited_book amount fee = record some_book {
  treasury_owner = balance (2_000_000 - fee);
  treasury_manager = balance 4_000_000;
  external = 3_000_000 + amount - 3 * fee;
  fee_collector = 31_500 + 4 * fee;
}

abbrev after : ValidatedBalances
after = record some_balances {
  asset_0_balance = deposited_book 500_000 10_500;
  asset_1_balance = deposited_book 400_000 9_500;
}

handlers_isolated_example :
    (deposit
        (interleaved prompt_env nobody machine.context (λ w. arrivals))
        both
        (within Operation.balances)
      ≡ deposit (alone prompt_env) both (within Operation.balances))
    × (withdraw_impl
          (interleaved prompt_env nobody machine.context (λ w. arrivals))
          (account_of manager)
          (account_of anonymous)
          (within Operation.withdraw)
        ≡ withdraw_impl
            (alone prompt_env)
            (account_of manager)
            (account_of anonymous)
            (within Operation.withdraw))
handlers_isolated_example =
    handlers_isolated prompt_env nobody machine.context (λ w. arrivals) both (account_of manager)
      (account_of anonymous) (within Operation.balances) (within Operation.withdraw) prompt
      (λ w. tt) refl
