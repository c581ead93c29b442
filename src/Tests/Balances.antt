-- ===== src/Tests/Balances.antt =====
-- The books at concrete amounts.
use sns_kongswap_adaptor.Base.{◌≡◌, refl, ◌≤◌, false, some, ◌+◌, ◌-◌, min, arith}
use sns_kongswap_adaptor.Validation.Asset.{asset_eq}
use sns_kongswap_adaptor.Base.Text.{str, text_eq}
use sns_kongswap_adaptor.Arithmetics.{u64_max}
use sns_kongswap_adaptor.Balances.{
  Party, ValidatedBalanceBook, move_asset, find_deposit_discrepency, find_withdraw_discrepency,
}
use sns_kongswap_adaptor.Balances.Select.{book_of}
use sns_kongswap_adaptor.Balances.Conservation.{
  move_asset_conserves, turnover, managed_assets, from_dex,
}
use sns_kongswap_adaptor.Balances.Discrepancy.{
  find_deposit_discrepency_lem, find_withdraw_discrepency_lem,
}
use sns_kongswap_adaptor.Tests.Fixtures.{dao, icp, some_book, some_balances}

found : book_of dao some_balances ≡ some some_book
unfolding book_of asset_eq text_eq str
found = refl

apart : asset_eq icp dao ≡ false
unfolding asset_eq text_eq str
apart = refl

move_asset_conserves_example :
    (after : ValidatedBalanceBook) × (book_of dao
        (move_asset dao Party.external Party.treasury_manager 2_000_000 some_balances)
      ≡ some after)
    × (after.external + 2_000_000 ≡ 3_000_000)
    × (after.treasury_manager.amount_decimals + 10_500 ≡ 5_000_000 + 2_000_000)
    × (managed_assets after + 10_500 ≡ managed_assets some_book)
    × (turnover after ≡ turnover some_book)
    × (after.suspense ≡ 7)
    × (book_of icp (move_asset dao Party.external Party.treasury_manager 2_000_000 some_balances)
        ≡ book_of icp some_balances)
move_asset_conserves_example =
    move_asset_conserves dao icp 2_000_000 some_balances some_book found apart from_dex
      (omega arith) (omega arith) (omega arith)

find_deposit_discrepency_lem_example :
    (book_of dao (find_deposit_discrepency dao 100 40 50 some_balances)
      ≡ some (record some_book { suspense = min (7 + (100 - 40 - 50)) u64_max }))
    × (100 ≤ 40 + 50
        → book_of dao (find_deposit_discrepency dao 100 40 50 some_balances) ≡ some some_book)
find_deposit_discrepency_lem_example =
    find_deposit_discrepency_lem dao 100 40 50 some_balances some_book found (omega arith)

find_withdraw_discrepency_lem_example :
    (book_of dao (find_withdraw_discrepency dao 100 40_000 50_000 some_balances)
      ≡ some (record some_book { suspense = min (7 + (50_000 - 10_500 - (40_000 - 100))) u64_max }))
    × (100 + 50_000 ≤ 40_000 + 10_500
        → book_of dao (find_withdraw_discrepency dao 100 40_000 50_000 some_balances)
          ≡ some some_book)
find_withdraw_discrepency_lem_example =
    find_withdraw_discrepency_lem dao 100 40_000 50_000 some_balances some_book found (omega arith)
