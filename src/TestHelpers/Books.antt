-- ===== src/TestHelpers/Books.antt =====
-- test_helpers/mod.rs, `make_default_validated_balances`. An `unwrap` of an error is a panic, which is
-- `none`.
use sns_kongswap_adaptor.Base.{Option, none, some}
use sns_kongswap_adaptor.Base.Text.{Text}
use sns_kongswap_adaptor.Base.Result.{Result, ok}
use sns_kongswap_adaptor.Sns.{Asset, BalanceBook}
use sns_kongswap_adaptor.Validation.Asset.{ValidatedAsset, Display, try_from_asset}
use sns_kongswap_adaptor.Validation.View.Book.{try_from_book}
use sns_kongswap_adaptor.Balances.{ValidatedBalances, ValidatedBalanceBook}

abbrev unwrapped :
    Result ValidatedAsset Text
    → Result ValidatedAsset Text
    → Option (Result ValidatedBalanceBook Text)
    → Option (Result ValidatedBalanceBook Text)
    → Option ValidatedBalances
unwrapped (ok asset_0) (ok asset_1) (some (ok asset_0_balance)) (some (ok asset_1_balance)) =
    some (record {
      timestamp_ns = 0;
      asset_0 = asset_0;
      asset_1 = asset_1;
      asset_0_balance = asset_0_balance;
      asset_1_balance = asset_1_balance;
    })
unwrapped _ _ _ _ = none

abbrev pub make_default_validated_balances :
    Display → Asset → Asset → BalanceBook → BalanceBook → Option ValidatedBalances
make_default_validated_balances d asset_0 asset_1 asset_0_balance asset_1_balance =
    unwrapped (try_from_asset d asset_0) (try_from_asset d asset_1)
      (try_from_book d asset_0_balance) (try_from_book d asset_1_balance)
