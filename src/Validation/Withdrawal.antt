-- ===== src/Validation/Withdrawal.antt =====
-- validation.rs, `ValidatedWithdrawRequest`: where the assets are to be returned.
pub mod Laws
use sns_kongswap_adaptor.Base.{ℕ, Option, none, some, List, [], ◌∷◌, ◌++◌, if◌then◌else◌}
use sns_kongswap_adaptor.Base.Text.{Text, str, join}
use sns_kongswap_adaptor.Base.Result.{Result, ok, err}
use sns_kongswap_adaptor.Sns.{Principal, principal_eq, Account, WithdrawRequest}

pub record ValidatedWithdrawRequest : Type 0 where
  pub withdraw_account_0 : Account
  pub withdraw_account_1 : Account

-- `BTreeMap::get`.
unfoldable pub get : Principal → List (Principal × Account) → Option Account
get k [] = none
get k ((j, a) ∷ m) = if principal_eq j k then some a else get k m

abbrev missing : Principal → Option Account → List Text
missing ledger none =
    (str "Withdraw account for ledger " ++ (ledger.text ++ str " not found.")) ∷ []
missing ledger (some a) = []

-- The two `unwrap`s stand behind the test that no error was noted.
abbrev judge_accounts :
    List Text → Option Account → Option Account → Result ValidatedWithdrawRequest Text
judge_accounts errors (some a) (some b) =
    ok (record { withdraw_account_0 = a; withdraw_account_1 = b })
judge_accounts errors _ _ = err (join (str ", ") errors)

abbrev choose_accounts :
    Principal
    → Principal
    → Account
    → Account
    → Option (List (Principal × Account))
    → Result ValidatedWithdrawRequest Text
choose_accounts ledger_0 ledger_1 default_0 default_1 none =
    ok (record { withdraw_account_0 = default_0; withdraw_account_1 = default_1 })
choose_accounts ledger_0 ledger_1 default_0 default_1 (some ledger_to_account) =
    let a = get ledger_0 ledger_to_account in
    let b = get ledger_1 ledger_to_account in
    judge_accounts (missing ledger_0 a ++ missing ledger_1 b) a b

unfoldable pub try_from_withdraw_request :
    Principal
    → Principal
    → Account
    → Account
    → WithdrawRequest
    → Result ValidatedWithdrawRequest Text
try_from_withdraw_request ledger_0 ledger_1 default_0 default_1 request =
    choose_accounts ledger_0 ledger_1 default_0 default_1 request.withdraw_accounts
