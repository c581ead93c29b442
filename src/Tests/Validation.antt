-- ===== src/Tests/Validation.antt =====
-- Requests and symbols that are accepted.
use sns_kongswap_adaptor.Base.{
  ◌≡◌, refl, ◌≤◌, ◌↔◌, true, none, some, List, [], ◌∷◌, arith, length, all,
}
use sns_kongswap_adaptor.Base.Text.{str, text_eq}
use sns_kongswap_adaptor.Base.Result.{ok}
use sns_kongswap_adaptor.Sns.{Principal, Account, Allowance}
use sns_kongswap_adaptor.Validation.Symbol.{
  ValidatedSymbol, try_from_text, to_string, max_symbol_bytes, is_valid_symbol_character,
}
use sns_kongswap_adaptor.Validation.Symbol.RoundTrip.{
  try_from_text-eq-ok, to_string-try_from_text, before_nul,
}
use sns_kongswap_adaptor.Validation.View.{book_from}
use sns_kongswap_adaptor.Validation.View.Book.{try_from_book, try_from_book-book_from}
use sns_kongswap_adaptor.Tests.Fixtures.{some_book}
use sns_kongswap_adaptor.Validation.Allowance.RoundTrip.{
  SameAllowance, try_from_deposit_request-allowance_from,
}
use sns_kongswap_adaptor.Validation.Allowance.{
  ValidatedAllowance, allowance_from, try_from_deposit_request,
}
use sns_kongswap_adaptor.Validation.Allowance.{
  asset_problems, try_from_allowance, validate_assets, validate_allowances,
}
use sns_kongswap_adaptor.Validation.Allowance.Laws.{
  IsSupported, IsCovered, validate_assets-eq-ok, validate_allowances-IsCovered,
}
use sns_kongswap_adaptor.Validation.Withdrawal.{get, try_from_withdraw_request}
use sns_kongswap_adaptor.Validation.Withdrawal.Laws.{try_from_withdraw_request_lem}
use sns_kongswap_adaptor.Tests.Fixtures.{
  dao, icp, sns_ledger, icp_ledger, manager, anonymous, account_of, display, allowance_0,
  allowance_1, validated,
}

validate_assets-eq-ok_example :
    (validate_assets icp_ledger (dao ∷ icp ∷ []) ≡ ok (dao, icp)
      → (dao ∷ icp ∷ [] ≡ dao ∷ icp ∷ []) × IsSupported icp_ledger dao icp)
    × (dao ∷ icp ∷ [] ≡ dao ∷ icp ∷ []
        → IsSupported icp_ledger dao icp
        → validate_assets icp_ledger (dao ∷ icp ∷ []) ≡ ok (dao, icp))
validate_assets-eq-ok_example = validate_assets-eq-ok icp_ledger (dao ∷ icp ∷ []) dao icp

pub accepted :
    validate_allowances display icp_ledger (allowance_0 ∷ allowance_1 ∷ [])
    ≡ ok (validated dao 50_000_000_000, validated icp 10_000_000_000)
unfolding validate_allowances try_from_allowance validate_assets try_from_text asset_problems
    to_string text_eq str
accepted = refl

validate_allowances-IsCovered_example :
    (a : Allowance) × (b : Allowance) × (allowance_0 ∷ allowance_1 ∷ [] ≡ a ∷ b ∷ [])
    × IsCovered display a (validated dao 50_000_000_000)
    × IsCovered display b (validated icp 10_000_000_000)
    × IsSupported icp_ledger dao icp
validate_allowances-IsCovered_example =
    validate_allowances-IsCovered display icp_ledger (allowance_0 ∷ allowance_1 ∷ [])
      (validated dao 50_000_000_000) (validated icp 10_000_000_000) accepted

abbrev destinations : List (Principal × Account)
destinations = (icp_ledger, account_of anonymous) ∷ (sns_ledger, account_of manager) ∷ []

try_from_withdraw_request_lem_example :
    (try_from_withdraw_request sns_ledger icp_ledger
        (account_of manager)
        (account_of manager)
        (record { withdraw_accounts = none })
      ≡ ok (record {
        withdraw_account_0 = account_of manager;
        withdraw_account_1 = account_of manager;
      }))
    × (try_from_withdraw_request sns_ledger icp_ledger
            (account_of manager)
            (account_of manager)
            (record { withdraw_accounts = some destinations })
          ≡ ok (record {
            withdraw_account_0 = account_of manager;
            withdraw_account_1 = account_of anonymous;
          })
        → (get sns_ledger destinations ≡ some (account_of manager))
          × (get icp_ledger destinations ≡ some (account_of anonymous)))
    × ((get sns_ledger destinations ≡ some (account_of manager))
        → (get icp_ledger destinations ≡ some (account_of anonymous))
        → try_from_withdraw_request sns_ledger icp_ledger
            (account_of manager)
            (account_of manager)
            (record { withdraw_accounts = some destinations })
          ≡ ok (record {
            withdraw_account_0 = account_of manager;
            withdraw_account_1 = account_of anonymous;
          }))
try_from_withdraw_request_lem_example =
    try_from_withdraw_request_lem sns_ledger icp_ledger (account_of manager) (account_of manager)
      destinations
      (record {
        withdraw_account_0 = account_of manager;
        withdraw_account_1 = account_of anonymous;
      })

try_from_text-eq-ok_example : ((s : ValidatedSymbol) × (try_from_text (str "CHAT") ≡ ok s)) ↔ (
    (length (str "CHAT") ≤ max_symbol_bytes) × (all is_valid_symbol_character (str "CHAT") ≡ true))
try_from_text-eq-ok_example = try_from_text-eq-ok (str "CHAT")

icp_symbol : try_from_text (str "ICP") ≡ ok icp.symbol
unfolding try_from_text str
icp_symbol = refl

to_string-try_from_text_example :
    (length icp.symbol.repr ≡ 10) × (to_string icp.symbol ≡ before_nul (str "ICP"))
to_string-try_from_text_example = to_string-try_from_text (str "ICP") icp.symbol icp_symbol

try_from_book-book_from_example : try_from_book display (book_from some_book) ≡ some (ok some_book)
try_from_book-book_from_example = try_from_book-book_from display some_book (ground arith)

try_from_deposit_request-allowance_from_example :
    (v' w' : ValidatedAllowance) × (try_from_deposit_request display icp_ledger (record {
      allowances =
          allowance_from (validated dao 50_000_000_000)
          ∷ allowance_from (validated icp 10_000_000_000)
          ∷ [];
    })
      ≡ ok (record { allowance_0 = v'; allowance_1 = w' }))
    × SameAllowance v' (validated dao 50_000_000_000)
    × SameAllowance w' (validated icp 10_000_000_000)
try_from_deposit_request-allowance_from_example =
    try_from_deposit_request-allowance_from display icp_ledger (allowance_0 ∷ allowance_1 ∷ [])
      (validated dao 50_000_000_000) (validated icp 10_000_000_000) accepted
