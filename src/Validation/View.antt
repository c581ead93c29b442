-- ===== src/Validation/View.antt =====
-- validation.rs, the conversions of the stored balances to and from the types of the API.
pub mod RoundTrip
pub mod Book
use sns_kongswap_adaptor.Base.{
  ℕ, Bool, ◌&&◌, ◌==◌, Option, none, some, List, [], ◌∷◌, ◌++◌, if◌then◌else◌,
}
use sns_kongswap_adaptor.Base.Text.{Text, str, join, text_eq}
use sns_kongswap_adaptor.Base.Result.{Result, ok, err}
use sns_kongswap_adaptor.Sns.{Account, Asset, token, Balance, BalanceBook, principal_eq}
use sns_kongswap_adaptor.Validation.Asset.{Display, decode_nat_to_u64, asset_from}
use sns_kongswap_adaptor.Balances.{ValidatedBalance, ValidatedBalanceBook, ValidatedBalances}

-- `From<ValidatedBalance> for Balance`.
unfoldable pub balance_from : ValidatedBalance → Balance
balance_from b = record {
  amount_decimals = b.amount_decimals;
  account = some b.account;
  name = some b.name;
}

abbrev anonymous : ℕ → Balance
anonymous amount = record { amount_decimals = amount; account = none; name = none }

-- `From<ValidatedBalanceBook> for BalanceBook`.
unfoldable pub book_from : ValidatedBalanceBook → BalanceBook
unfolding balance_from
book_from b = record {
  treasury_owner = some (balance_from b.treasury_owner);
  treasury_manager = some (balance_from b.treasury_manager);
  external_custodian = some (anonymous b.external);
  fee_collector = some (anonymous b.fee_collector);
  payees = some (anonymous b.spendings);
  payers = some (anonymous b.earnings);
  suspense = some (anonymous b.suspense);
}

-- The map from assets to books, as the list of its entries.
pub record Balances : Type 0 where
  pub timestamp_ns : ℕ
  pub asset_to_balances : Option (List (Asset × BalanceBook))

abbrev same_asset : Asset → Asset → Bool
same_asset (token s p f) (token s' p' f') = text_eq s s' && principal_eq p p' && f == f'

-- `From<ValidatedBalances> for Balances`; of two equal keys the later entry stays.
unfoldable pub balances_from : ValidatedBalances → Balances
unfolding asset_from book_from
balances_from b =
    let key_0 = asset_from b.asset_0 in
    let key_1 = asset_from b.asset_1 in
    let entry_1 : Asset × BalanceBook = (key_1, book_from b.asset_1_balance) in
    record {
      timestamp_ns = b.timestamp_ns;
      asset_to_balances = some (
          if same_asset key_0 key_1
          then entry_1 ∷ []
          else (key_0, book_from b.asset_0_balance) ∷ entry_1 ∷ []);
    }

abbrev amount_problems : Display → ℕ → Result ℕ Text → List Text
amount_problems d amount (ok a) = []
amount_problems d amount (err e) =
    (str "Failed to convert amount " ++ (d.nat amount ++ str " to u64")) ∷ []

abbrev pub absent : {A : Type 0} → Text → Option A → List Text
absent problem none = problem ∷ []
absent problem (some a) = []

-- The `unwrap`s stand behind the test that there is no error.
abbrev judge_balance :
    List Text → Result ℕ Text → Option Account → Option Text → Result ValidatedBalance Text
judge_balance errors (ok amount) (some account) (some name) =
    ok (record { amount_decimals = amount; account = account; name = name })
judge_balance errors _ _ _ = err (join (str ", ") errors)

-- `TryFrom<Balance> for ValidatedBalance`.
unfoldable pub try_from_balance : Display → Balance → Result ValidatedBalance Text
unfolding decode_nat_to_u64
try_from_balance d b =
    let amount = decode_nat_to_u64 d b.amount_decimals in
    judge_balance
      (amount_problems d b.amount_decimals amount
        ++ (absent (str "Owner account of the balance is not set") b.account
            ++ absent (str "Name is not set") b.name))
      amount b.account b.name
